-- ===== src/Services/Servers/Laws.antt =====
-- Which servers a probe asks, and what its errors say.
use local_singbox_manager.Common.{
  ◌≡◌, refl, String, Bool, true, false, ◌||◌, Option, none, some, List, [], ◌∷◌, ◌⊎◌, All, member,
  contains, Bool-cases, inl, inr, if◌then◌else◌,
}
use local_singbox_manager.Common.Json.{Json, null, bool, num, str, arr, obj}
use local_singbox_manager.Common.Python.{Python}
use local_singbox_manager.Services.Servers.{ServerSpec, ServerSnapshot, allowed_aliases}
use local_singbox_manager.Services.Servers.Probe.{
  SshResult, Remote, spec_by_alias, safe_error, ssh_python, snapshot_of, of_payload, payload_of,
  told_output, of_result, probe_found, probe_server,
}

-- the texts of the errors
abbrev pub probe_errors : List String
probe_errors =
    "SSH host key verification failed. Check the alias in a terminal."
    ∷ "SSH authentication failed. Check the key and remote user."
    ∷ "SSH connection or probe timed out." ∷ "SSH hostname could not be resolved."
    ∷ "SSH connection refused or closed."
    ∷ "SSH probe failed. Check the alias and access in a terminal." ∷ "Unknown SSH alias"
    ∷ "Probe returned non-JSON output" ∷ "Probe payload was not an object" ∷ []

-- a snapshot without an error of a server that answers, or with one of these errors
abbrev pub IsTold : ServerSnapshot → Type 0
IsTold snapshot =
    ((snapshot.reachable ≡ some true) × (snapshot.error ≡ ""))
    ⊎ ((snapshot.reachable ≡ some false) × (member snapshot.error probe_errors ≡ true))

error_choice :
    (a b c d e : Bool)
    → member
        (if a
          then "SSH host key verification failed. Check the alias in a terminal."
          else if b
          then "SSH authentication failed. Check the key and remote user."
          else if c
          then "SSH connection or probe timed out."
          else if d
          then "SSH hostname could not be resolved."
          else if e
          then "SSH connection refused or closed."
          else "SSH probe failed. Check the alias and access in a terminal.")
        probe_errors
      ≡ true
error_choice true b c d e = refl
error_choice false true c d e = refl
error_choice false false true d e = refl
error_choice false false false true e = refl
error_choice false false false false true = refl
error_choice false false false false false = refl

module _ ⦃py : Python⦄ where
  safe_error-member : (text : String) → member (safe_error text) probe_errors ≡ true
  unfolding safe_error
  safe_error-member text =
      let message = py.lower text in
      error_choice
        (contains message "host key verification failed"
          || contains message "host identification has changed")
        (contains message "permission denied") (contains message "timed out")
        (contains message "could not resolve hostname")
        (contains message "connection refused" || contains message "connection closed")

  module _ (remote : Remote) where
    payload-IsTold : (s : ServerSpec) (o : Option Json) → IsTold (of_payload remote s o)
    unfolding snapshot_of
    payload-IsTold s none = inr (refl, refl)
    payload-IsTold s (some (obj fields)) = inl (refl, refl)
    payload-IsTold s (some null) = inr (refl, refl)
    payload-IsTold s (some (bool b)) = inr (refl, refl)
    payload-IsTold s (some (num n)) = inr (refl, refl)
    payload-IsTold s (some (str t)) = inr (refl, refl)
    payload-IsTold s (some (arr items)) = inr (refl, refl)

    result-IsTold : (s : ServerSpec) (r : SshResult) → IsTold (of_result remote s r)
    result-IsTold s r = elim (Bool-cases r.success) [
      | inl e ↦ rw e (payload-IsTold s (payload_of remote (remote.splitlines r.output)))
      | inr e ↦ rw e (inr (refl, safe_error-member (told_output remote r)))
    ]

    asked-allowed :
        (alias : String)
        → All (λ (a : String). member a allowed_aliases ≡ true) (ssh_python remote alias).1
    unfolding ssh_python
    asked-allowed alias = elim (Bool-cases (remote.is_alias alias)) [
      | inl e ↦ elim (Bool-cases (member alias allowed_aliases)) [
        | inl k ↦ rw (e, k) (k, tt)
        | inr k ↦ rw (e, k) tt
      ]
      | inr e ↦ rw e tt
    ]

    found_probed :
        (alias : String)
        → (o : Option ServerSpec)
        → IsTold (probe_found remote alias o).0
          × All (λ (a : String). member a allowed_aliases ≡ true) (probe_found remote alias o).1
    found_probed alias none = (inr (refl, refl), tt)
    found_probed alias (some s) =
        (result-IsTold s (ssh_python remote s.alias).0, asked-allowed s.alias)

    -- For every alias that is asked for and every answer of SSH (a run that fails or times out
    -- included), a probe runs `ssh` only for the aliases of the fixed list of servers, and the snapshot
    -- it returns either says the server is reachable and has no error, or says it is not reachable and
    -- its error is one of nine fixed texts, so that an error shows nothing that the server or SSH wrote.
    pub probe_server-IsTold :
        (alias : String)
        → IsTold (probe_server remote alias).0
          × All (λ (a : String). member a allowed_aliases ≡ true) (probe_server remote alias).1
    unfolding probe_server
    probe_server-IsTold alias = found_probed alias (spec_by_alias alias)
