-- ===== src/Tests/Hosts.antt =====
-- server/host.c at small inputs.
use testbus.Base.{◌≡◌, refl, ◌⊎◌, [], ◌∷◌, none, some, true, ◌&&◌, CString, str_eq, ◌==◌}
use testbus.Environ
use testbus.Host.{Host, contains, set_role, handle, claims, disconnects}
use testbus.Host.Claim.{claim_exclusive, claim_kept}
use testbus.Host.Agent.{IsValid, handle-IsValid}

abbrev server : CString
server = b's' ∷ b'r' ∷ b'v' ∷ []

abbrev client : CString
client = b'c' ∷ b'l' ∷ b't' ∷ []

-- A free host, with an agent that is ready.
abbrev idle : Host
idle = record {
  capabilities = server ∷ [];
  uuid = 1 ∷ 2 ∷ [];
  agent_bus_name = some client;
  role = none;
  eventlog = none;
  generation = 1;
  name = some server;
  owner = none;
  env = Environ.init;
  ready = true;
}

abbrev busy : Host
busy = record idle { role = some server; owner = some 7 }

idle-IsValid : IsValid idle
idle-IsValid = record { served = λ h. refl; uniq = (unfold contains in refl, tt) }

claim_exclusive_example :
    let h' = (set_role idle (some server) (some 7)).1 in
    (((idle.role ≡ none) × (idle.owner ≡ none)) ⊎ (h' ≡ idle))
    × (h'.role ≡ some server)
    × (h'.owner ≡ some 7)
    × (set_role h' (some client) (some 8) ≡ (str_eq server client && 7 == 8, h'))
claim_exclusive_example = claim_exclusive idle server client 7 8 refl (unfold set_role in refl)

claim_kept_example :
    ((handle busy (claims client 8)).role ≡ some server)
    × ((handle busy (claims client 8)).owner ≡ some 7)
claim_kept_example = claim_kept busy (claims client 8) server 7 refl refl (λ e. cc) (λ e. cc)

handle-IsValid_example : IsValid (handle idle disconnects)
handle-IsValid_example = handle-IsValid idle disconnects idle-IsValid
