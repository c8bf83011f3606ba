-- ===== src/EventLog/Sequence.antt =====
-- Sequence numbers: what a log of one's own events guarantees, and what an acknowledgement by number
-- leaves pending.
use testbus.Base.{ℕ, suc, ◌+◌, ◌≡◌, List, [], ◌∷◌, length, if◌then◌else◌, ltb}
use testbus.EventLog.{Event}

-- The numbers of the events run up to `next`, with no gap.
abbrev pub IsNumbered : ℕ → List Event → Type 0
IsNumbered next [] = Unit {0}
IsNumbered next (e ∷ es) = (e.sequence + suc (length es) ≡ next) × IsNumbered next es

-- The events with a number above `seq`.
unfoldable pub above : ℕ → List Event → List Event
above seq [] = []
above seq (e ∷ es) = if ltb seq e.sequence then e ∷ above seq es else above seq es
