-- ===== src/Services/Deploy/Laws.antt =====
-- The active rows after an activation.
use local_singbox_manager.Common.{
  ℕ, ◌≡◌, refl, sym, subst, Bool, true, false, Option, none, some, List, [], ◌∷◌, map, ◌=ℕ◌, All,
  ◌⊎◌, inl, inr, if◌then◌else◌,
}
use local_singbox_manager.Common.Python.{Python}
use local_singbox_manager.Common.Results.{Result, ok, err, ok-injective}
use local_singbox_manager.Parsers.Node.{ParsedNode}
use local_singbox_manager.Singbox.Host.{Event}
use local_singbox_manager.Singbox.Deployer.{DeployResult, DeployCrash, deploy_with_rollback}
use local_singbox_manager.Store.Models.{Node, Profile, Database}
use local_singbox_manager.Store.Nodes as NodeRows
use local_singbox_manager.Store.Profiles as ProfileRows
use local_singbox_manager.Services.Nodes.{LoadError, deserialize_node}
use local_singbox_manager.Singbox.Routes.{ConfigError}
use local_singbox_manager.Common.Json.{Dict}
use local_singbox_manager.Services.Deploy.{
  Env, ActivationResult, recorded, record_result, mark_active, add_log, deploy_config,
  activate_loaded, activate_node,
}

-- the row of this id is active, and no other
abbrev pub OnlyNode : ℕ → List Node → Type 0
OnlyNode n nodes = All (λ (x : Node). x.active ≡ (x.id =ℕ n)) nodes

abbrev is_profile : Option Profile → ℕ → Bool
is_profile none n = false
is_profile (some p) n = n =ℕ p.id

abbrev pub OnlyProfile : Option Profile → List Profile → Type 0
OnlyProfile chosen profiles = All (λ (x : Profile). x.active ≡ is_profile chosen x.id) profiles

-- one row after all have been made inactive and one of them active
node_row :
    (n : ℕ) (b : Bool) (x : Node)
    → (if b then record x { active = true } else record x { active = false }).active ≡ b
node_row n true x = refl
node_row n false x = refl

nodes_of :
    (node : Node) (nodes : List Node)
    → OnlyNode node.id (
        map
          (λ (n : Node). if n.id =ℕ node.id then record n { active = true } else n)
          (map (λ (n : Node). record n { active = false }) nodes))
nodes_of node [] = tt
nodes_of node (x ∷ nodes) = (row (x.id =ℕ node.id) refl, nodes_of node nodes)
  where
    row :
        (b : Bool)
        → (x.id =ℕ node.id) ≡ b
        → (if b then record x { active = true } else record x { active = false }).active
          ≡ ((if b then record x { active = true } else record x { active = false }).id =ℕ node.id)
    row true e = sym e
    row false e = sym e

profiles_of :
    (profile : Profile) (profiles : List Profile)
    → OnlyProfile (some profile) (
        map
          (λ (p : Profile). if p.id =ℕ profile.id then record p { active = true } else p)
          (map (λ (p : Profile). record p { active = false }) profiles))
profiles_of profile [] = tt
profiles_of profile (x ∷ profiles) = (row (x.id =ℕ profile.id) refl, profiles_of profile profiles)
  where
    row :
        (b : Bool)
        → (x.id =ℕ profile.id) ≡ b
        → (if b then record x { active = true } else record x { active = false }).active ≡ (
            (if b then record x { active = true } else record x { active = false }).id
            =ℕ profile.id)
    row true e = sym e
    row false e = sym e

no_profiles :
    (profiles : List Profile)
    → OnlyProfile none (map (λ (p : Profile). record p { active = false }) profiles)
no_profiles [] = tt
no_profiles (x ∷ profiles) = (refl, no_profiles profiles)

-- what an activation leaves: the node and the profile as the only active ones, or the old flags
abbrev pub Activated : Database → Node → Option Profile → Database → ActivationResult → Type 0
Activated db node profile db' r =
    ((r.accepted ≡ true) × OnlyNode node.id db'.nodes × OnlyProfile profile db'.profiles)
    ⊎ ((r.accepted ≡ false) × (db'.nodes ≡ db.nodes) × (db'.profiles ≡ db.profiles))

module _ ⦃py : Python⦄ where
  mark-nodes :
      (node : Node) (profile : Option Profile) (db : Database)
      → OnlyNode node.id (mark_active node profile db).nodes
  unfolding mark_active NodeRows.deactivate_all ProfileRows.deactivate_all
  mark-nodes node none db = nodes_of node db.nodes
  mark-nodes node (some p) db = nodes_of node db.nodes

  mark-profiles :
      (node : Node) (profile : Option Profile) (db : Database)
      → OnlyProfile profile (mark_active node profile db).profiles
  unfolding mark_active NodeRows.deactivate_all ProfileRows.deactivate_all
  mark-profiles node none db = no_profiles db.profiles
  mark-profiles node (some p) db = profiles_of p db.profiles

  recorded-Activated :
      (db : Database) (node : Node) (profile : Option Profile) (result : DeployResult)
      → Activated db node profile
          (record_result db node profile result).0
          (record_result db node profile result).1
  unfolding record_result add_log
  recorded-Activated db node profile result = by_success result.success refl
    where
      by_success :
          (b : Bool)
          → result.success ≡ b
          → Activated db node profile
              (if b
                then mark_active node profile (add_log node result db)
                else add_log node result db)
              (record_result db node profile result).1
      by_success true e = inl (
        e,
        mark-nodes node profile (add_log node result db),
        mark-profiles node profile (add_log node result db),
      )
      by_success false e = inr (e, refl, refl)

  module _ (env : Env) where
    recorded-lem :
        (db : Database) (node : Node) (profile : Option Profile)
        (m : Result DeployCrash DeployResult) {db' : Database} {r : ActivationResult}
        → recorded env db node profile m ≡ ok (db', r)
        → Activated db node profile db' r
    recorded-lem db node profile (err e) h = cc
    recorded-lem db node profile (ok result) h =
        subst (λ (x : Database × ActivationResult). Activated db node profile x.0 x.1)
          (ok-injective h) (recorded-Activated db node profile result)

    config-lem :
        (db : Database) (node : Node) (profile : Option Profile) (m : Result ConfigError Dict)
        (past : List Event) {db' : Database} {r : ActivationResult}
        → (deploy_config env db node profile m past).0 ≡ ok (db', r)
        → Activated db node profile db' r
    config-lem db node profile (err e) past h =
        subst (λ (x : Database × ActivationResult). Activated db node profile x.0 x.1)
          (ok-injective h) (inr (refl, refl, refl))
    config-lem db node profile (ok config) past h =
        recorded-lem db node profile
          (deploy_with_rollback env.host env.locked config node.tag true past).0 h

    loaded-lem :
        (db : Database) (node : Node) (profile : Option Profile) (m : Result LoadError ParsedNode)
        (past : List Event) {db' : Database} {r : ActivationResult}
        → (activate_loaded env db node profile m past).0 ≡ ok (db', r)
        → Activated db node profile db' r
    loaded-lem db node profile (err e) past h =
        subst (λ (x : Database × ActivationResult). Activated db node profile x.0 x.1)
          (ok-injective h) (inr (refl, refl, refl))
    loaded-lem db node profile (ok parsed) past h = config-lem db node profile _ past h

    -- After an activation that is accepted, exactly the rows with the id of the node are active, and of
    -- the profiles exactly those with the id of the profile, or none without a profile. After one that
    -- is not, whatever its stage, the rows of nodes and profiles are as before.
    pub activate_node-Activated :
        (db : Database) (node : Node) (profile : Option Profile) (past : List Event)
        (db' : Database) (r : ActivationResult)
        → (activate_node env db node profile past).0 ≡ ok (db', r)
        → Activated db node profile db' r
    unfolding activate_node
    activate_node-Activated db node profile past db' r h =
        loaded-lem db node profile (deserialize_node env.pydantic node) past h
