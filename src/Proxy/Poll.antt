-- ===== src/Proxy/Poll.antt =====
-- proxy/main.c, what is polled, and the loop that closes the channels of a lost connection.
use testbus.Base.{
  ℕ, ◌≡◌, ◌≢◌, refl, List, [], ◌∷◌, ◌++◌, Option, none, some, Bool, true, false, not, ◌&&◌, ◌||◌,
  arith, if◌then◌else◌, ◌==◌, ==_iff, Bool-cases, Option-cases, some-injective, inl, inr, ap, sym,
  ◌∙◌, subst, All, All-append, is_none,
}
use testbus.Buffer.{Buffer, count}
use testbus.Proxy.Endpoint.{Endpoint}

-- A struct pollfd that io_set_poll_info fills; POLLHUP is always asked for.
pub record PollFd : Type 0 where
  pub fd : Option ℕ
  pub pollin : Bool
  pub pollout : Bool

unfoldable pub same_fd : Option ℕ → Option ℕ → Bool
same_fd none none = true
same_fd (some a) (some b) = a == b
same_fd _ _ = false

-- `ep->wbuf` is there; its assertion is that it is not empty.
unfoldable pub pending : Option Buffer → Option Bool
pending none = some false
pending (some b) = if count b == 0 then none else some true

unfoldable pub poll_one : Endpoint → Bool → List PollFd
poll_one e writing =
    let reading = not (e.rx_credit == 0) in
    if not (reading || writing)
    then []
    else record { fd = e.rfd; pollin = reading; pollout = writing } ∷ []

-- Two descriptors: the second is filled with `ep->rfd` as well.
unfoldable pub poll_two : Endpoint → Bool → List PollFd
poll_two e writing =
    (if not (is_none e.rfd) && not (e.rx_credit == 0)
      then record { fd = e.rfd; pollin = true; pollout = false } ∷ []
      else [])
    ++ (if not (is_none e.wfd) && writing
        then record { fd = e.rfd; pollin = false; pollout = true } ∷ []
        else [])

-- io_endpoint_poll; `none` where the assertion fails.
unfoldable pub poll : Endpoint → Option (List PollFd)
unfolding pending poll_one poll_two same_fd
poll e =
    if (is_none e.rfd && is_none e.wfd) || not e.connected then some [] else elim (pending e.wbuf) [
      | none ↦ none
      | some writing ↦ some (if same_fd e.rfd e.wfd then poll_one e writing else poll_two e writing)
    ]

-- io_endpoint_doio writes for a descriptor whose POLLOUT has come.
abbrev pub Writes : Endpoint → PollFd → Type 0
Writes e p = (e.wfd ≡ p.fd) × (p.pollout ≡ true)

when :
    (e : Endpoint) (b : Bool) (p : PollFd)
    → ¬ Writes e p
    → All (λ p. ¬ Writes e p) (if b then p ∷ [] else [])
when e true p h = (h, tt)
when e false p h = tt

same_fd-ne : (a b : Option ℕ) → a ≢ b → same_fd a b ≡ false
unfolding same_fd
same_fd-ne none none h = absurd (h refl)
same_fd-ne (some a) none h = refl
same_fd-ne none (some b) h = refl
same_fd-ne (some a) (some b) h = elim (Bool-cases (a == b)) [
  | inl eq ↦ absurd (h (ap some ((==_iff a b).0 eq)))
  | inr ne ↦ ne
]

poll_two-Writes :
    (e : Endpoint) (writing : Bool) → e.rfd ≢ e.wfd → All (λ p. ¬ Writes e p) (poll_two e writing)
unfolding poll_two
poll_two-Writes e writing ne =
    All-append (λ p. ¬ Writes e p) _ _
      (when e (not (is_none e.rfd) && not (e.rx_credit == 0)) _ (λ w. ne (sym w.0)))
      (when e (not (is_none e.wfd) && writing) _ (λ w. ne (sym w.0)))

-- An endpoint with two descriptors, as for pipes and for a socket whose read side is shut down, is never
-- polled for its write descriptor, so that io_endpoint_doio never writes to it.
pub poll-Writes :
    (e : Endpoint) (ps : List PollFd)
    → e.rfd ≢ e.wfd
    → poll e ≡ some ps
    → All (λ p. ¬ Writes e p) ps
unfolding poll
poll-Writes e ps ne h = elim (Bool-cases ((is_none e.rfd && is_none e.wfd) || not e.connected)) [
  | inl idle ↦
      let nothing : poll e ≡ some [] = rw (poll, idle) refl in
      subst (All (λ p. ¬ Writes e p)) (some-injective (sym nothing ∙ h)) tt
  | inr active ↦ elim (Option-cases (pending e.wbuf)) [
    | inl bad ↦ absurd (ground (arith, h, active, bad))
    | inr (writing, ok) ↦
        let two : poll e ≡ some (poll_two e writing) =
          rw (poll, active, ok, same_fd-ne e.rfd e.wfd ne) refl in
        subst (All (λ p. ¬ Writes e p)) (some-injective (sym two ∙ h))
          (poll_two-Writes e writing ne)
  ]
]
