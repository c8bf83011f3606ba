-- ===== src/Hostlist.antt =====
-- The hosts of the global container, and the requests of agents that change the list: Hostlist of
-- server/dbus-host.c, the signal `ready`, and the loss of an agent's connection.
pub mod Names
pub mod Requests
use testbus.Base.{
  ℕ, List, [], ◌∷◌, ◌++◌, Option, none, some, Bool, true, false, CString, string_eq, if◌then◌else◌,
}
use testbus.Uuid.{is_null}
use testbus.Environ
use testbus.Host.{Host, find_by_name, reconnect, set_agent, agent_ready, agent_disconnected}

-- ni_testbus_host_new, in memory that ni_malloc has cleared.
unfoldable pub new_host : CString → Host
new_host name = record {
  capabilities = [];
  uuid = 0 ∷ 0 ∷ 0 ∷ 0 ∷ 0 ∷ 0 ∷ 0 ∷ 0 ∷ 0 ∷ 0 ∷ 0 ∷ 0 ∷ 0 ∷ 0 ∷ 0 ∷ 0 ∷ [];
  agent_bus_name = none;
  role = none;
  eventlog = none;
  generation = 0;
  name = some name;
  owner = none;
  env = Environ.init;
  ready = false;
}

-- Hostlist.createHost, called by the agent that has the bus name `agent`; `fresh` is what
-- ni_uuid_generate gives. The flag is false if the name is taken.
unfoldable pub create_host : List Host → CString → CString → List ℕ → Bool × List Host
unfolding new_host
create_host hosts name agent fresh = elim (find_by_name hosts (some name)) [
  | some h ↦ (false, hosts)
  | none ↦ (true, hosts ++ record (set_agent (new_host name) agent) { uuid = fresh } ∷ [])
]

-- What a change of the host that a lookup by name has found does to the list.
unfoldable pub update : List Host → CString → Host → List Host
update [] name h' = []
update (h ∷ hs) name h' =
    let rest = update hs name h' in if string_eq h.name (some name) then h' ∷ hs else h ∷ rest

-- Hostlist.reconnect: a host that is not known is made.
unfoldable pub reconnect_host : List Host → CString → List ℕ → CString → List ℕ → Bool × List Host
unfolding new_host update
reconnect_host hosts name uuid agent fresh = elim (find_by_name hosts (some name)) [
  | some h ↦ ((reconnect h uuid agent fresh).0, update hosts name (reconnect h uuid agent fresh).1)
  | none ↦ (
    true,
    hosts
        ++ record (set_agent (new_host name) agent) { uuid = if is_null uuid then fresh else uuid }
          ∷ [],
  )
]

-- ni_testbus_host_array_remove, of the host that a lookup by name has found.
unfoldable pub without : List Host → CString → List Host
without [] name = []
without (h ∷ hs) name =
    let rest = without hs name in if string_eq h.name (some name) then hs else h ∷ rest

-- Hostlist.removeHost; the flag is false for an unknown name.
unfoldable pub remove_host : List Host → CString → Bool × List Host
unfolding without
remove_host hosts name = elim (find_by_name hosts (some name)) [
  | none ↦ (false, hosts)
  | some h ↦ (true, without hosts name)
]

-- __ni_testbus_host_agent_signal, for the signal `ready` of the agent with that bus name: it reaches
-- the first host that the agent serves.
unfoldable pub ready_signal : List Host → CString → List Host
ready_signal [] sender = []
ready_signal (h ∷ hs) sender =
    let rest = ready_signal hs sender in
    if string_eq h.agent_bus_name (some sender) then agent_ready h ∷ hs else h ∷ rest

-- NameOwnerChanged of server/main.c, when a bus name loses its owner: the first host that was served
-- under that name is disconnected.
unfoldable pub name_lost : List Host → CString → List Host
name_lost [] name = []
name_lost (h ∷ hs) name =
    let rest = name_lost hs name in
    if string_eq h.agent_bus_name (some name) then agent_disconnected h ∷ hs else h ∷ rest

pub data Request : Type 0 where
  creates : CString → CString → List ℕ → Request
  reconnects : CString → List ℕ → CString → List ℕ → Request
  removes : CString → Request
  readies : CString → Request
  loses : CString → Request

unfoldable pub serve : List Host → Request → List Host
unfolding create_host reconnect_host remove_host ready_signal name_lost
serve hosts (creates name agent fresh) = (create_host hosts name agent fresh).1
serve hosts (reconnects name uuid agent fresh) = (reconnect_host hosts name uuid agent fresh).1
serve hosts (removes name) = (remove_host hosts name).1
serve hosts (readies sender) = ready_signal hosts sender
serve hosts (loses name) = name_lost hosts name
