-- ===== src/Hostlist/Requests.antt =====
-- The requests on the list of hosts: names stay unique, and lookups by name follow the requests.
use testbus.Base.{
  ℕ, ◌≡◌, refl, List, [], ◌∷◌, ◌++◌, none, some, true, false, CString, if◌then◌else◌, Option-cases,
  inl, inr, subst, sym, ◌∙◌,
}
use testbus.Uuid.{is_null}
use testbus.Host.{Host, find_by_name, reconnect, set_agent}
use testbus.Hostlist.{
  new_host, create_host, update, reconnect_host, without, remove_host, Request, creates, reconnects,
  removes, readies, loses, serve,
}
use testbus.Hostlist.Names.{
  Distinct, Distinct-append, Distinct-update, Distinct-without, Distinct-ready_signal,
  Distinct-name_lost, found_name, reconnect_name,
}

-- The host that a creation or a reconnect makes.
abbrev pub made : CString → CString → List ℕ → Host
made name agent uuid = record (set_agent (new_host name) agent) { uuid = uuid }

made_name : (name agent : CString) (uuid : List ℕ) → (made name agent uuid).name ≡ some name
unfolding set_agent new_host
made_name name agent uuid = refl

module _ (hs : List Host) (name agent : CString) (uuid fresh : List ℕ) where
  create_free :
      find_by_name hs (some name) ≡ none
      → create_host hs name agent fresh ≡ (true, hs ++ made name agent fresh ∷ [])
  unfolding create_host
  create_free e = rw (create_host, e) refl

  create_taken :
      (h : Host)
      → find_by_name hs (some name) ≡ some h
      → create_host hs name agent fresh ≡ (false, hs)
  unfolding create_host
  create_taken h e = rw (create_host, e) refl

  remove_free : find_by_name hs (some name) ≡ none → remove_host hs name ≡ (false, hs)
  unfolding remove_host
  remove_free e = rw (remove_host, e) refl

  remove_taken :
      (h : Host)
      → find_by_name hs (some name) ≡ some h
      → remove_host hs name ≡ (true, without hs name)
  unfolding remove_host
  remove_taken h e = rw (remove_host, e) refl

  reconnect_free :
      find_by_name hs (some name) ≡ none
      → reconnect_host hs name uuid agent fresh
        ≡ (true, hs ++ made name agent (if is_null uuid then fresh else uuid) ∷ [])
  unfolding reconnect_host
  reconnect_free e = rw (reconnect_host, e) refl

  reconnect_taken :
      (h : Host)
      → find_by_name hs (some name) ≡ some h
      → reconnect_host hs name uuid agent fresh
        ≡ ((reconnect h uuid agent fresh).0, update hs name (reconnect h uuid agent fresh).1)
  unfolding reconnect_host
  reconnect_taken h e = rw (reconnect_host, e) refl

Distinct-made :
    (hs : List Host) (name agent : CString) (uuid : List ℕ)
    → Distinct hs
    → find_by_name hs (some name) ≡ none
    → Distinct (hs ++ made name agent uuid ∷ [])
unfolding new_host set_agent
Distinct-made hs name agent uuid d free = Distinct-append hs (made name agent uuid) d refl free

-- Every request keeps the names of the registered hosts unique.
pub serve-Distinct : (hs : List Host) (r : Request) → Distinct hs → Distinct (serve hs r)
unfolding serve
serve-Distinct hs (creates name agent fresh) d = elim (Option-cases (find_by_name hs (some name))) [
  | inl free ↦
      subst (λ r. Distinct r.1) (sym (create_free hs name agent fresh fresh free))
        (Distinct-made hs name agent fresh d free)
  | inr (h, taken) ↦
      subst (λ r. Distinct r.1) (sym (create_taken hs name agent fresh fresh h taken)) d
]
serve-Distinct hs (reconnects name uuid agent fresh) d =
    elim (Option-cases (find_by_name hs (some name))) [
      | inl free ↦
          subst (λ r. Distinct r.1) (sym (reconnect_free hs name agent uuid fresh free))
            (Distinct-made hs name agent (if is_null uuid then fresh else uuid) d free)
      | inr (h, taken) ↦
          subst (λ r. Distinct r.1) (sym (reconnect_taken hs name agent uuid fresh h taken))
            (Distinct-update hs name (reconnect h uuid agent fresh).1
              (reconnect_name h uuid agent fresh ∙ found_name hs (some name) h taken) d)
    ]
serve-Distinct hs (removes name) d = elim (Option-cases (find_by_name hs (some name))) [
  | inl free ↦ subst (λ r. Distinct r.1) (sym (remove_free hs name name [] [] free)) d
  | inr (h, taken) ↦
      subst (λ r. Distinct r.1) (sym (remove_taken hs name name [] [] h taken))
        (Distinct-without hs name d)
]
serve-Distinct hs (readies sender) d = Distinct-ready_signal hs sender d
serve-Distinct hs (loses name) d = Distinct-name_lost hs name d
