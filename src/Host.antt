-- ===== src/Host.antt =====
-- server/host.c, and the methods of server/dbus-host.c that change a host: the agent that serves it,
-- and the role that a test claims it for.
pub mod Claim
pub mod Agent
use testbus.Base.{
  ℕ, zero, suc, ◌+◌, ◌%◌, ◌^◌, List, [], ◌∷◌, ◌++◌, Option, none, some, Bool, true, false, ◌&&◌,
  not, CString, str_eq, string_eq, if◌then◌else◌, ◌==◌,
}
use testbus.Uuid.{is_null}
use testbus.Environ.{Env}
use testbus.Environ
use testbus.EventLog.{Log}
use testbus.EventLog

-- struct ni_testbus_host, with the members of its container that the host code uses. Containers are
-- known by address. A uuid is 16 bytes; the null uuid is all zero.
pub record Host : Type 0 where
  pub capabilities : List CString
  pub uuid : List ℕ
  pub agent_bus_name : Option CString
  pub role : Option CString
  pub eventlog : Option Log
  pub generation : ℕ
  pub name : Option CString
  pub owner : Option ℕ
  pub env : Env
  pub ready : Bool

-- ni_testbus_host_release, called once the owner is gone.
pub release : Host → Host
release host = record host {
  role = none;
  eventlog = elim host.eventlog [ none ↦ none | some log ↦ some (EventLog.flush log) ];
}

-- ni_testbus_host_destroy
pub destroy : Host → Host
destroy host = record host {
  eventlog = none;
  capabilities = [];
  agent_bus_name = none;
  role = none;
}

-- `host->context.owner == owner`, for an owner that is not NULL.
abbrev pub owned_by : Host → ℕ → Bool
owned_by host owner = elim host.owner [ none ↦ false | some o ↦ o == owner ]

-- The test for a registration that is repeated: same role, same owner.
pub same_claim : Host → Option CString → ℕ → Bool
same_claim host role owner = string_eq host.role role && owned_by host owner

-- ni_testbus_host_set_role
unfoldable pub set_role : Host → Option CString → Option ℕ → Bool × Host
unfolding same_claim
set_role host role none = (true, record host { role = none; owner = none })
set_role host role (some owner) = elim host.role [
  | none ↦ (true, record host { role = role; owner = some owner })
  | some old ↦ if same_claim host role owner then (true, host) else (false, host)
]

-- ni_testbus_host_agent_ready
unfoldable pub agent_ready : Host → Host
agent_ready host = record host { ready = true; generation = (host.generation + 1) % 2 ^ 32 }

-- ni_testbus_host_agent_disconnected
unfoldable pub agent_disconnected : Host → Host
agent_disconnected host = record host {
  capabilities = [];
  env = Environ.init;
  agent_bus_name = none;
  ready = false;
}

-- ni_string_array_index(...) < 0, negated
unfoldable pub contains : List CString → CString → Bool
contains [] s = false
contains (x ∷ xs) s = if str_eq x s then true else contains xs s

-- ni_testbus_host_add_capability
pub add_capability : Host → Option CString → Host
unfolding contains
add_capability host none = host
add_capability host (some c) =
    if contains host.capabilities c
    then host
    else record host { capabilities = host.capabilities ++ c ∷ [] }

-- ni_testbus_host_array_find_by_name
unfoldable pub find_by_name : List Host → Option CString → Option Host
find_by_name [] name = none
find_by_name (h ∷ hs) name = if string_eq h.name name then some h else find_by_name hs name

-- ni_testbus_host_array_find_by_role
pub find_by_role : List Host → Option CString → Option Host
find_by_role [] role = none
find_by_role (h ∷ hs) role = if string_eq h.role role then some h else find_by_role hs role

-- ni_testbus_host_array_detach_from
pub detach_from : List Host → ℕ → List Host
unfolding set_role
detach_from [] owner = []
detach_from (h ∷ hs) owner =
    (if owned_by h owner then (set_role h none none).1 else h) ∷ detach_from hs owner

-- The steps of ni_testbus_container_release_owned on a host that `owner` owns: the owner is
-- cleared, then ni_testbus_host_release runs.
pub release_owned : Host → ℕ → Host
unfolding release
release_owned host owner =
    if owned_by host owner then release (record host { owner = none }) else host

-- __ni_testbus_host_set_agent: `agent` is the well-known bus name of the caller. The event log
-- belonged to the agent's last connection.
unfoldable pub set_agent : Host → CString → Host
set_agent host agent = record host { agent_bus_name = some agent; eventlog = none }

-- The test for an agent that comes back under the same uuid while the master has it as connected.
unfoldable pub came_back : Host → List ℕ → Bool
unfolding is_null
came_back host uuid =
    not (is_null uuid)
    && str_eq host.uuid uuid
    && elim host.agent_bus_name [ none ↦ false | some n ↦ true ]

-- Hostlist.reconnect on a host that exists, from server/dbus-host.c: `agent` is the bus name of the
-- caller and `fresh` what ni_uuid_generate gives. The flag is false for a duplicate registration.
unfoldable pub reconnect : Host → List ℕ → CString → List ℕ → Bool × Host
unfolding is_null came_back agent_disconnected set_agent
reconnect host uuid agent fresh =
    let h = if came_back host uuid then agent_disconnected host else host in
    elim h.agent_bus_name [
      | some other ↦ (false, h)
      | none ↦ (true, set_agent (record h { uuid = if is_null uuid then fresh else uuid }) agent)
    ]

-- What can happen to a host that is registered. A `ready` signal reaches a host by the bus name of
-- its agent.
pub data Event : Type 0 where
  signals_ready : CString → Event
  disconnects : Event
  reconnects : List ℕ → CString → List ℕ → Event
  gains : Option CString → Event
  claims : CString → ℕ → Event
  unclaims : Event
  owner_goes : ℕ → Event

pub handle : Host → Event → Host
unfolding agent_ready agent_disconnected reconnect add_capability set_role release_owned
handle h (signals_ready sender) =
    if string_eq h.agent_bus_name (some sender) then agent_ready h else h
handle h disconnects = agent_disconnected h
handle h (reconnects uuid agent fresh) = (reconnect h uuid agent fresh).1
handle h (gains c) = add_capability h c
handle h (claims role owner) = (set_role h (some role) (some owner)).1
handle h unclaims = (set_role h none none).1
handle h (owner_goes owner) = release_owned h owner

pub handle_all : Host → List Event → Host
handle_all h [] = h
handle_all h (e ∷ es) = handle_all (handle h e) es
