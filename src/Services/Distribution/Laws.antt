-- ===== src/Services/Distribution/Laws.antt =====
-- Who is served, and the limit on deliveries.
use Prim.Native.Nat.{◌<◌, ◌≤◌}
use mathlib.Core.Bool.{false≢true}
use local_singbox_manager.Common.{
  ℕ, ◌+◌, String, ◌≡◌, ◌≢◌, refl, sym, ap, ◌∙◌, not_blank, =ℕ_iff, length-append, Bool, true, false,
  not, ◌&&◌, Option, none, some, List, [], ◌∷◌, ◌++◌, arith, subst, ◌==◌, ◌=ℕ◌, is_empty, length,
  member, filter, Bool-cases, inl, inr, if◌then◌else◌,
}
use local_singbox_manager.Common.Python.{Python}
use local_singbox_manager.Singbox.Presets.{known_route_preset}
use local_singbox_manager.Store.Models.{second, ConfigGroup, ManagedUser, Database}
use local_singbox_manager.Store.Users
use local_singbox_manager.Services.NodeTags.{decode_node_tags}
use local_singbox_manager.Services.Distribution.{
  UserAssignment, delivery_actions, hour, refused, effective_refresh_limit, nodes_of_tags,
  preset_of, counts, assignment_from_group, assignment_in_group, assignment_of_user, group_of_id,
  get_user_assignment, delivery_count, record_delivery, no_group, count_distinct,
}

-- The hourly limit of a user in a group is never 0.
pub effective_refresh_limit_pos :
    (user : Option ManagedUser) (group : ConfigGroup) → 0 < effective_refresh_limit user group
unfolding effective_refresh_limit
effective_refresh_limit_pos none group = ground arith
effective_refresh_limit_pos (some user) group = ground arith

module _ ⦃py : Python⦄ where
  -- what an assignment without an error says of its group
  pub record IsServed (db : Database) (g : ConfigGroup) (a : UserAssignment) : Type 0 where
    pub nodes : a.nodes ≡ nodes_of_tags (decode_node_tags g.node_tags_json) db
    pub some_node : a.nodes ≢ []
    pub all_found : length a.nodes ≡ count_distinct (decode_node_tags g.node_tags_json)
    pub preset : known_route_preset a.route_preset ≡ true
    pub limit : 0 < a.refresh_limit_per_hour
    pub group : a.group ≡ some g

  assignment_from_group-user :
      (db : Database) (g : ConfigGroup) (user : Option ManagedUser)
      → (assignment_from_group db g user).user ≡ user
  unfolding assignment_from_group
  assignment_from_group-user db g user = ground arith

  assignment_from_group-IsServed :
      (db : Database) (g : ConfigGroup) (user : Option ManagedUser)
      → (assignment_from_group db g user).error ≡ ""
      → IsServed db g (assignment_from_group db g user)
  unfolding assignment_from_group
  assignment_from_group-IsServed db g user e =
      let tags = decode_node_tags g.node_tags_json in
      let nodes = nodes_of_tags tags db in
      elim (Bool-cases (is_empty tags)) [
        | inl t1 ↦ absurd (not_blank _ refl (rw t1 at e))
        | inr t1 ↦ elim (Bool-cases (is_empty nodes)) [
          | inl t2 ↦ absurd (not_blank _ refl (rw (t1, t2) at e))
          | inr t2 ↦ elim (Bool-cases (length nodes =ℕ count_distinct tags)) [
            | inr t3 ↦ absurd (not_blank _ refl (rw (t1, t2, t3) at e))
            | inl t3 ↦ elim (Bool-cases (known_route_preset (preset_of g))) [
              | inr t4 ↦ absurd (not_blank _ refl (rw (t1, t2, t3, t4) at e))
              | inl t4 ↦
                  rw (t1, t2, t3, t4)
                    (record {
                      nodes = refl;
                      some_node = λ empty. false≢true (sym t2 ∙ ap is_empty empty);
                      all_found = (=ℕ_iff _ _).0 t3;
                      preset = t4;
                      limit = effective_refresh_limit_pos user g;
                      group = refl;
                    })
            ]
          ]
        ]
      ]

  -- an assignment without an error is not the one of the refused branch
  not_refused :
      (b : Bool) (r a : UserAssignment)
      → r.error ≢ ""
      → (if b then r else a).error ≡ ""
      → (b ≡ false) × ((if b then r else a) ≡ a)
  not_refused true r a bad e = absurd (bad e)
  not_refused false r a bad e = (refl, refl)

  not-false : (b : Bool) → not b ≡ false → b ≡ true
  not-false true e = refl
  not-false false e = sym e

  in_group_sound :
      (db : Database) (u : ManagedUser) (o : Option ConfigGroup)
      → (assignment_in_group db u o).error ≡ ""
      → (g : ConfigGroup) × (o ≡ some g)
        × (g.enabled ≡ true)
        × IsServed db g (assignment_in_group db u o)
        × ((assignment_in_group db u o).user ≡ some u)
  in_group_sound db u none e = absurd (not_blank _ refl e)
  in_group_sound db u (some g) e =
      let a = assignment_from_group db g (some u) in
      let (live, same) = not_refused (not g.enabled) _ a (not_blank _ refl) e in
      (
        g,
        refl,
        not-false g.enabled live,
        subst (λ (x : UserAssignment). IsServed db g x) (sym same)
            (assignment_from_group-IsServed db g (some u)
              (ap (λ (x : UserAssignment). x.error) (sym same) ∙ e)),
        ap (λ (x : UserAssignment). x.user) same ∙ assignment_from_group-user db g (some u),
      )

  -- what an assignment without an error says of the user
  pub record IsEntitled (db : Database) (telegram_id : String) (a : UserAssignment) : Type 0 where
    pub user : ManagedUser
    pub group : ConfigGroup
    pub registered : Users.get_user_by_telegram_id telegram_id db ≡ some user
    pub enabled : user.enabled ≡ true
    pub assigned : group_of_id user.config_group_id db ≡ some group
    pub group_enabled : group.enabled ≡ true
    pub served : IsServed db group a
    pub same_user : a.user ≡ some user

  of_user-IsEntitled :
      (db : Database) (telegram_id : String) (o : Option ManagedUser)
      → Users.get_user_by_telegram_id telegram_id db ≡ o
      → (assignment_of_user db o).error ≡ ""
      → IsEntitled db telegram_id (assignment_of_user db o)
  of_user-IsEntitled db telegram_id none r e = absurd (not_blank _ refl e)
  of_user-IsEntitled db telegram_id (some u) r e =
      let a = assignment_in_group db u (group_of_id u.config_group_id db) in
      let b =
        if no_group u.config_group_id
        then refused (some u) none [] "No config group assigned."
        else a in
      let (on, same) = not_refused (not u.enabled) _ b (not_blank _ refl) e in
      let (has, same') =
        not_refused (no_group u.config_group_id) _ a (not_blank _ refl)
          (ap (λ (x : UserAssignment). x.error) (sym same) ∙ e) in
      let whole = same ∙ same' in
      let (g, found, live, served, user_of) =
        in_group_sound db u (group_of_id u.config_group_id db)
          (ap (λ (x : UserAssignment). x.error) (sym whole) ∙ e) in
      subst (λ (x : UserAssignment). IsEntitled db telegram_id x) (sym whole)
        (record {
          user = u;
          group = g;
          registered = r;
          enabled = not-false u.enabled on;
          assigned = found;
          group_enabled = live;
          served = served;
          same_user = user_of;
        })

  -- Only a registered, enabled user with an existing, enabled group gets an assignment without an
  -- error; its nodes are those of the group's tags, at least one and as many as there are different tags, the
  -- route preset is known, and the limit is above 0.
  pub get_user_assignment-IsEntitled :
      (db : Database) (telegram_id : String)
      → (get_user_assignment db telegram_id).error ≡ ""
      → IsEntitled db telegram_id (get_user_assignment db telegram_id)
  unfolding get_user_assignment
  get_user_assignment-IsEntitled db telegram_id e =
      of_user-IsEntitled db telegram_id (Users.get_user_by_telegram_id telegram_id db) refl e

pub filter-append {ℓ} :
    {A : Type ℓ} (p : A → Bool) (xs ys : List A) → filter p (xs ++ ys) ≡ filter p xs ++ filter p ys
filter-append p [] ys = refl
filter-append p (x ∷ xs) ys = ground (arith, filter-append p xs ys)

-- Recording a delivery adds one to the count of that user if the action is limited, and nothing to
-- any other count.
pub delivery_count-record_delivery :
    ⦃py : Python⦄ (db : Database) (who other action detail : String) (success : Bool)
    (a : UserAssignment) (now : ℕ)
    → now + second ≤ db.now + hour
    → delivery_count (record_delivery db who action success a detail) other now
      ≡ delivery_count db other now
        + (if who == other && member action delivery_actions then 1 else 0)
unfolding delivery_count record_delivery
delivery_count-record_delivery db who other action detail success a now h =
    rw (filter-append (counts other now) db.deliveries _)
      (length-append (filter (counts other now) db.deliveries) _ ∙ ground arith)
