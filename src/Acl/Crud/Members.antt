-- ===== src/Acl/Crud/Members.antt =====
-- src/acl/crud.rs: `add_user_to_group` and `remove_user_from_group`.
use rust_socks.Prelude.{
  ◌≡◌, refl, true, false, List, [], ◌∷◌, ◌++◌, any, none, some, if◌then◌else◌, arith, ◌⊎◌, inl, inr,
  Option-cases, Bool-cases, not,
}
use rust_socks.Prelude.Text.{Text, text_eq, text_eq_iff, text_eq_refl}
use rust_socks.Utils.Result.{Result, ok, err}
use rust_socks.Acl.Types.{
  AclConfig, UserAcl, AclError, group_not_found, user_not_found, already_in_group, not_in_group,
}
use rust_socks.Acl.Crud.{user_owner, find_owner}

-- The first user of a name, after its groups are written back.
unfoldable write_groups : Text → List Text → List UserAcl → List UserAcl
write_groups n groups [] = []
write_groups n groups (u ∷ users) =
    if text_eq u.username n
    then record u { groups = groups } ∷ users
    else u ∷ write_groups n groups users

-- `position` and `remove`
unfoldable remove_name : Text → List Text → List Text
remove_name n [] = []
remove_name n (m ∷ names) = if text_eq m n then names else m ∷ remove_name n names

unfoldable pub add_user_to_group : AclConfig → Text → Text → Result AclError (Unit {0}) × AclConfig
unfolding find_owner write_groups
add_user_to_group config user group =
    if not (any (λ g. text_eq g.name group) config.groups)
    then (err (group_not_found group), config)
    else elim (find_owner user_owner user config.users) [
      | none ↦ (
        ok tt,
        record config {
          users = config.users ++ record { username = user; groups = group ∷ []; rules = [] } ∷ [];
        },
      )
      | some u ↦
          if any (λ g. text_eq g group) u.groups
          then (err (already_in_group user group), config)
          else (
            ok tt,
            record config { users = write_groups user (u.groups ++ group ∷ []) config.users },
          )
    ]

pub remove_user_from_group : AclConfig → Text → Text → Result AclError (Unit {0}) × AclConfig
unfolding find_owner write_groups remove_name
remove_user_from_group config user group = elim (find_owner user_owner user config.users) [
  | none ↦ (err (user_not_found user), config)
  | some u ↦
      if any (λ g. text_eq g group) u.groups
      then (
        ok tt,
        record config { users = write_groups user (remove_name group u.groups) config.users },
      )
      else (err (not_in_group user group), config)
]

-- The abstract view: the groups that the first user of a name lists.
unfoldable pub groups_named : Text → List UserAcl → List Text
groups_named n [] = []
groups_named n (u ∷ users) = if text_eq u.username n then u.groups else groups_named n users

groups_named-found :
    (n : Text) (users : List UserAcl) (u : UserAcl)
    → find_owner user_owner n users ≡ some u
    → groups_named n users ≡ u.groups
unfolding groups_named find_owner
groups_named-found n [] u h = cc
groups_named-found n (v ∷ users) u h = ground (arith, groups_named-found n users u)

groups_named-missing :
    (n : Text) (users : List UserAcl)
    → find_owner user_owner n users ≡ none
    → groups_named n users ≡ []
unfolding groups_named find_owner
groups_named-missing n [] h = refl
groups_named-missing n (v ∷ users) h = ground (arith, groups_named-missing n users)

groups_named-write_groups :
    (n m : Text) (groups : List Text) (users : List UserAcl) (u : UserAcl)
    → find_owner user_owner n users ≡ some u
    → groups_named m (write_groups n groups users)
      ≡ (if text_eq n m then groups else groups_named m users)
unfolding groups_named find_owner write_groups
groups_named-write_groups n m groups [] u h = cc
groups_named-write_groups n m groups (v ∷ users) u h = ground (
  arith,
  groups_named-write_groups n m groups users u,
  text_eq_iff v.username n,
  text_eq_iff v.username m,
  text_eq_iff n m,
)

groups_named-new :
    (n m : Text) (u : UserAcl) (users : List UserAcl)
    → u.username ≡ n
    → find_owner user_owner n users ≡ none
    → groups_named m (users ++ u ∷ []) ≡ (if text_eq n m then u.groups else groups_named m users)
unfolding groups_named find_owner
groups_named-new n m u [] e h = ground arith
groups_named-new n m u (v ∷ users) e h = ground (
  arith,
  groups_named-new n m u users,
  text_eq_iff v.username n,
  text_eq_iff v.username m,
  text_eq_iff n m,
)

remove_name-append :
    (n : Text) (names : List Text)
    → any (λ g. text_eq g n) names ≡ false
    → remove_name n (names ++ n ∷ []) ≡ names
unfolding remove_name
remove_name-append n [] h = ground (arith, text_eq_refl n)
remove_name-append n (m ∷ names) h = ground (arith, remove_name-append n names)

any-last : (n : Text) (names : List Text) → any (λ g. text_eq g n) (names ++ n ∷ []) ≡ true
any-last n [] = ground (arith, text_eq_refl n)
any-last n (m ∷ names) = ground (arith, any-last n names)

-- A user is put into a group that exists and that it is not in yet, else the configuration stays as
-- it was; the group comes after the user's others, and no other user's groups change.
pub add_user_to_group-cases :
    (config : AclConfig) (user group : Text)
    → ((e : AclError) × (add_user_to_group config user group ≡ (err e, config))
        × ((any (λ g. text_eq g.name group) config.groups ≡ false)
            ⊎ (any (λ g. text_eq g group) (groups_named user config.users) ≡ true)))
      ⊎ (((add_user_to_group config user group).0 ≡ ok tt)
          × (any (λ g. text_eq g.name group) config.groups ≡ true)
          × (any (λ g. text_eq g group) (groups_named user config.users) ≡ false)
          × ((m : Text)
              → groups_named m (add_user_to_group config user group).1.users ≡ (
                  if text_eq user m
                  then groups_named user config.users ++ group ∷ []
                  else groups_named m config.users)))
unfolding add_user_to_group
add_user_to_group-cases config user group =
    elim (Bool-cases (any (λ g. text_eq g.name group) config.groups)) [
      | inl known ↦ elim (Option-cases (find_owner user_owner user config.users)) [
        | inl missing ↦
            let new_user : UserAcl = record { username = user; groups = group ∷ []; rules = [] } in
            let before = groups_named-missing user config.users missing in
            inr (
              ground arith,
              known,
              ground arith,
              λ m. ground (arith, groups_named-new user m new_user config.users refl missing),
            )
        | inr (u, found) ↦
            let before = groups_named-found user config.users u found in
            elim (Bool-cases (any (λ g. text_eq g group) u.groups)) [
              | inl inside ↦ inl (already_in_group user group, ground arith, inr (ground arith))
              | inr outside ↦ inr (
                ground arith,
                known,
                ground arith,
                λ m. ground (
                  arith,
                  groups_named-write_groups user m (u.groups ++ group ∷ []) config.users u found,
                ),
              )
            ]
      ]
      | inr unknown ↦ inl (group_not_found group, ground arith, inl unknown)
    ]

find_owner-write_groups :
    (n : Text) (groups : List Text) (users : List UserAcl) (u : UserAcl)
    → find_owner user_owner n users ≡ some u
    → find_owner user_owner n (write_groups n groups users) ≡ some (record u { groups = groups })
unfolding find_owner write_groups
find_owner-write_groups n groups [] u h = cc
find_owner-write_groups n groups (v ∷ users) u h =
    ground (arith, find_owner-write_groups n groups users u)

find_owner-last :
    (u : UserAcl) (users : List UserAcl)
    → find_owner user_owner u.username users ≡ none
    → find_owner user_owner u.username (users ++ u ∷ []) ≡ some u
unfolding find_owner
find_owner-last u [] h = ground (arith, text_eq_refl u.username)
find_owner-last u (v ∷ users) h = ground (arith, find_owner-last u users)

add_user_to_group-found :
    (config : AclConfig) (user group : Text)
    → (add_user_to_group config user group).0 ≡ ok tt
    → (u : UserAcl) × (find_owner user_owner user (add_user_to_group config user group).1.users
        ≡ some u)
      × (u.groups ≡ groups_named user config.users ++ group ∷ [])
unfolding add_user_to_group
add_user_to_group-found config user group h =
    elim (Option-cases (find_owner user_owner user config.users)) [
      | inl missing ↦
          let new_user : UserAcl = record { username = user; groups = group ∷ []; rules = [] } in
          let before = groups_named-missing user config.users missing in
          (new_user, ground (arith, find_owner-last new_user config.users), ground arith)
      | inr (u, found) ↦
          let groups = u.groups ++ group ∷ [] in
          let before = groups_named-found user config.users u found in
          (
            record u { groups = groups },
            ground (arith, find_owner-write_groups user groups config.users u),
            ground arith,
          )
    ]

-- A group that was added for a user is removed again, and every user is then in the groups that it
-- was in before.
pub remove_user_from_group-add_user_to_group :
    (config : AclConfig) (user group m : Text)
    → (add_user_to_group config user group).0 ≡ ok tt
    → ((remove_user_from_group (add_user_to_group config user group).1 user group).0 ≡ ok tt)
      × (groups_named m
            (remove_user_from_group (add_user_to_group config user group).1 user group).1.users
          ≡ groups_named m config.users)
unfolding remove_user_from_group
remove_user_from_group-add_user_to_group config user group m h =
    let (u, found, groups) = add_user_to_group-found config user group h in
    let users = (add_user_to_group config user group).1.users in
    let before = groups_named user config.users in
    elim (add_user_to_group-cases config user group) [
      | inl (e, refused, _) ↦ absurd cc
      | inr (_, _, outside, added) ↦ (
        ground (arith, any-last group before),
        ground (
          arith,
          any-last group before,
          remove_name-append group before,
          groups_named-write_groups user m before users u,
          added m,
          text_eq_iff user m,
        ),
      )
    ]
