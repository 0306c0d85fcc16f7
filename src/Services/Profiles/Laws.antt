-- ===== src/Services/Profiles/Laws.antt =====
-- What the activation of a profile does.
use mathlib.Core.Bool.{false≢true}
use local_singbox_manager.Common.{
  ℕ, String, ◌≡◌, refl, sym, ap, ◌∙◌, subst, Bool, true, false, not, Option, none, some, List, inl,
  inr, is_blank, text_or, if◌then◌else◌,
}
use local_singbox_manager.Common.Python.{Python}
use local_singbox_manager.Common.Results.{Result, ok, err, ok-injective}
use local_singbox_manager.Singbox.Host.{Event}
use local_singbox_manager.Singbox.Deployer.{DeployCrash}
use local_singbox_manager.Store.Models.{Node, Profile, Setting, Database}
use local_singbox_manager.Store.Nodes as NodeRows
use local_singbox_manager.Store.Profiles as ProfileRows
use local_singbox_manager.Services.Deploy.{Run, Env, ActivationResult, activate_node}
use local_singbox_manager.Services.Deploy.Laws.{
  OnlyNode, OnlyProfile, Activated, activate_node-Activated,
}
use local_singbox_manager.Services.Settings.{get_setting, put, set_setting, presets}
use local_singbox_manager.Store.Settings as Rows
use local_singbox_manager.Singbox.Presets.{default_dns_preset, default_route_preset}
use local_singbox_manager.Services.Settings.Laws.{get_setting-set_setting}
use local_singbox_manager.Services.Profiles.{
  ProfileMutationResult, refused, save_presets, after_activation, activated, activate_with,
  activate_found, activate_profile,
}

-- what an accepted activation of a profile leaves
pub record ProfileActivated (db : Database) (profile_id : ℕ) (db' : Database) : Type 0 where
  pub profile : Profile
  pub node : Node
  pub found : ProfileRows.get_by_id profile_id db ≡ some profile
  pub node_found : NodeRows.get_by_tag (text_or profile.node_tag "") db ≡ some node
  pub only_node : OnlyNode node.id db'.nodes
  pub only_profile : OnlyProfile (some profile) db'.profiles
  pub settings : presets db' ≡ (profile.dns_preset, profile.route_preset)

saved-presets :
    (db : Database) (dns_preset route_preset : String)
    → presets (set_setting "route_preset" route_preset (set_setting "dns_preset" dns_preset db))
      ≡ (dns_preset, route_preset)
unfolding presets
saved-presets db dns_preset route_preset =
    let one = set_setting "dns_preset" dns_preset db in
    let dns =
      get_setting-set_setting "route_preset" "dns_preset" route_preset default_dns_preset one
      ∙ get_setting-set_setting "dns_preset" "dns_preset" dns_preset default_dns_preset db in
    let route =
      get_setting-set_setting "route_preset" "route_preset" route_preset default_route_preset one in
    ap
      (λ (x : String). (
        x,
        get_setting "route_preset" default_route_preset
            (set_setting "route_preset" route_preset one),
      ))
      dns
    ∙ ap (λ (x : String). (dns_preset, x)) route

put-rows :
    (key value : String) (db : Database) (o : Option Setting)
    → ((put key value db o).nodes ≡ db.nodes) × ((put key value db o).profiles ≡ db.profiles)
put-rows key value db none = (refl, refl)
put-rows key value db (some s) = (refl, refl)

set_setting-rows :
    (key value : String) (db : Database)
    → ((set_setting key value db).nodes ≡ db.nodes)
      × ((set_setting key value db).profiles ≡ db.profiles)
unfolding set_setting
set_setting-rows key value db = put-rows key value db (Rows.get key db)

module _ ⦃py : Python⦄ (env : Env) where
  saved-rows :
      (p : Profile) (d : Database)
      → ((save_presets env p d).nodes ≡ d.nodes) × ((save_presets env p d).profiles ≡ d.profiles)
  saved-rows p d =
      let (n1, p1) = set_setting-rows "dns_preset" p.dns_preset d in
      let (n2, p2) =
        set_setting-rows "route_preset" p.route_preset (set_setting "dns_preset" p.dns_preset d) in
      (n2 ∙ n1, p2 ∙ p1)

  -- only an accepted activation of the node is accepted
  accept :
      (b : Bool) (d e : Database) (bad good : ProfileMutationResult) {db' : Database}
      {r : ProfileMutationResult}
      → bad.accepted ≡ false
      → ◌≡◌ {A = Database × ProfileMutationResult} (if not b then (d, bad) else (e, good)) (db', r)
      → r.accepted ≡ true
      → (b ≡ true) × (e ≡ db')
  accept true d e bad good f h accepted = (refl, ap (λ x. x.0) h)
  accept false d e bad good f h accepted = absurd (
      false≢true (sym f ∙ ap (λ (x : Database × ProfileMutationResult). x.1.accepted) h ∙ accepted))

  after-lem :
      (db : Database) (profile_id : ℕ) (p : Profile) (n : Node) (d : Database)
      (a : ActivationResult) {db' : Database} {r : ProfileMutationResult}
      → ProfileRows.get_by_id profile_id db ≡ some p
      → NodeRows.get_by_tag (text_or p.node_tag "") db ≡ some n
      → Activated db n (some p) d a
      → after_activation env p d a ≡ (db', r)
      → r.accepted ≡ true
      → ProfileActivated db profile_id db'
  after-lem db profile_id p n d a found node_found (inr (bad, _, _)) h accepted =
      absurd
        (false≢true (sym bad ∙ (accept a.accepted d (save_presets env p d) _ _ refl h accepted).0))
  after-lem db profile_id p n d a found node_found (inl (good, nodes, profiles)) h accepted =
      let (rows_n, rows_p) = saved-rows p d in
      subst (λ (x : Database). ProfileActivated db profile_id x)
        (accept a.accepted d (save_presets env p d) _ _ refl h accepted).1
        (record {
          profile = p;
          node = n;
          found = found;
          node_found = node_found;
          only_node = subst (OnlyNode n.id) (sym rows_n) nodes;
          only_profile = subst (OnlyProfile (some p)) (sym rows_p) profiles;
          settings = saved-presets d p.dns_preset p.route_preset;
        })

  activated-lem :
      (db : Database) (profile_id : ℕ) (p : Profile) (n : Node)
      (m : Result DeployCrash (Database × ActivationResult)) {db' : Database}
      {r : ProfileMutationResult}
      → ProfileRows.get_by_id profile_id db ≡ some p
      → NodeRows.get_by_tag (text_or p.node_tag "") db ≡ some n
      → ((d : Database) (a : ActivationResult) → m ≡ ok (d, a) → Activated db n (some p) d a)
      → activated env p m ≡ ok (db', r)
      → r.accepted ≡ true
      → ProfileActivated db profile_id db'
  activated-lem db profile_id p n (err e) found node_found k h accepted = cc
  activated-lem db profile_id p n (ok (d, a)) found node_found k h accepted =
      after-lem db profile_id p n d a found node_found (k d a refl) (ok-injective h) accepted

  with-lem :
      (db : Database) (profile_id : ℕ) (p : Profile) (o : Option Node) (past : List Event)
      {db' : Database} {r : ProfileMutationResult}
      → ProfileRows.get_by_id profile_id db ≡ some p
      → NodeRows.get_by_tag (text_or p.node_tag "") db ≡ o
      → (activate_with env db p (text_or p.node_tag "") o past).0 ≡ ok (db', r)
      → r.accepted ≡ true
      → ProfileActivated db profile_id db'
  with-lem db profile_id p none past found missing h accepted = absurd (
      false≢true
        (ap (λ (x : Database × ProfileMutationResult). x.1.accepted) (ok-injective h) ∙ accepted))
  with-lem db profile_id p (some n) past found node_found h accepted =
      activated-lem db profile_id p n (activate_node env db n (some p) past).0 found node_found
        (λ d a e. activate_node-Activated env db n (some p) past d a e) h accepted

  -- the test for a profile without a node
  tagged :
      (b : Bool) (message : String) (db : Database) (past : List Event)
      (run : Run ProfileMutationResult) {db' : Database} {r : ProfileMutationResult}
      → (if b then (ok (db, refused message), past) else run).0 ≡ ok (db', r)
      → r.accepted ≡ true
      → run.0 ≡ ok (db', r)
  tagged true message db past run h accepted = absurd (
      false≢true
        (ap (λ (x : Database × ProfileMutationResult). x.1.accepted) (ok-injective h) ∙ accepted))
  tagged false message db past run h accepted = h

  found-lem :
      (db : Database) (profile_id : ℕ) (o : Option Profile) (past : List Event) {db' : Database}
      {r : ProfileMutationResult}
      → ProfileRows.get_by_id profile_id db ≡ o
      → (activate_found env db o past).0 ≡ ok (db', r)
      → r.accepted ≡ true
      → ProfileActivated db profile_id db'
  found-lem db profile_id none past found h accepted = absurd (
      false≢true
        (ap (λ (x : Database × ProfileMutationResult). x.1.accepted) (ok-injective h) ∙ accepted))
  found-lem db profile_id (some p) past found h accepted =
      let tag = text_or p.node_tag "" in
      with-lem db profile_id p (NodeRows.get_by_tag tag db) past found refl
        (tagged (is_blank tag) _ db past
          (activate_with env db p tag (NodeRows.get_by_tag tag db) past) h accepted)
        accepted

  -- An accepted activation of a profile found the profile and the node of its tag; afterwards that node
  -- and that profile are the only active ones, and the settings hold the presets of the profile.
  pub activate_profile-ProfileActivated :
      (db : Database) (profile_id : ℕ) (past : List Event) (db' : Database)
      (r : ProfileMutationResult)
      → (activate_profile env db profile_id past).0 ≡ ok (db', r)
      → r.accepted ≡ true
      → ProfileActivated db profile_id db'
  unfolding activate_profile
  activate_profile-ProfileActivated db profile_id past db' r h accepted =
      found-lem db profile_id (ProfileRows.get_by_id profile_id db) past refl h accepted
