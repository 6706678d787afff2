-- ===== src/Acl/Engine/Config.antt =====
-- src/acl/engine.rs: validation and reloading, and which group a lowercase name finds.
use rust_socks.Prelude.{
  subst, ◌≡◌, ◌≢◌, ◌∙◌, true, false, List, [], ◌∷◌, ◌++◌, map, any, All, All-mono, none, some,
  arith, ◌⊎◌, inl, inr,
}
use rust_socks.Prelude.Text.{Text, text_eq, text_eq_refl, text_eq_iff, to_ascii_lowercase}
use rust_socks.Prelude.Maps.{text_key, lookup, lookup-insert}
use rust_socks.Utils.Result.{ok, err, >>=-eq-ok, Result-cases}
use rust_socks.Acl.Types.{AclError, UserAcl, GroupAcl, AclConfig, duplicate_user, duplicate_group}
use rust_socks.Acl.Matcher.{Externals}
use rust_socks.Acl.Engine.{
  CompiledGroupAcl, CompiledAclConfig, distinct_names, known_groups, references_known, validate,
  compile_group, compile_groups, compile_users, compile_config, reload, rules_of, dynamic_rules,
}

-- No name stands twice.
abbrev pub Distinct : List Text → Type 0
Distinct [] = Unit
Distinct (n ∷ names) = All (λ m. m ≢ n) names × Distinct names

-- The groups that a user names exist.
abbrev pub Known : List GroupAcl → UserAcl → Type 0
Known groups u = All (λ n. any (λ g. text_eq g.name n) groups ≡ true) u.groups

distinct_names_sound :
    (duplicate : Text → AclError) (seen names : List Text)
    → distinct_names duplicate seen names ≡ ok tt
    → All (λ n. any (text_eq n) seen ≡ false) names × Distinct names
unfolding distinct_names
distinct_names_sound duplicate seen [] h = (tt, tt)
distinct_names_sound duplicate seen (n ∷ names) h =
    let (apart, distinct) = distinct_names_sound duplicate (n ∷ seen) names (ground arith) in
    (
      (ground arith, All-mono _ _ (λ m e. ground arith) names apart),
      (All-mono _ _ (λ m e q. ground (arith, text_eq_iff m n)) names apart, distinct),
    )

known_groups_sound :
    (groups : List GroupAcl) (user : Text) (names : List Text)
    → known_groups groups user names ≡ ok tt
    → All (λ n. any (λ g. text_eq g.name n) groups ≡ true) names
unfolding known_groups
known_groups_sound groups user [] h = tt
known_groups_sound groups user (n ∷ names) h =
    (ground arith, known_groups_sound groups user names (ground arith))

references_known_sound :
    (groups : List GroupAcl) (users : List UserAcl)
    → references_known groups users ≡ ok tt
    → All (Known groups) users
unfolding references_known
references_known_sound groups [] h = tt
references_known_sound groups (u ∷ users) h =
    let (_, named, rest) =
      >>=-eq-ok (known_groups groups u.username u.groups) (λ _. references_known groups users) h in
    (known_groups_sound groups u.username u.groups named, references_known_sound groups users rest)

-- A configuration that `validate` accepts has no two users and no two groups of one name, and its
-- users name groups that exist.
pub validate_sound :
    (config : AclConfig)
    → validate config ≡ ok tt
    → Distinct (map (λ u. u.username) config.users)
      × Distinct (map (λ g. g.name) config.groups)
      × All (Known config.groups) config.users
unfolding validate
validate_sound config h =
    let (_, users, h') = >>=-eq-ok _ _ h in
    let (_, groups, known) = >>=-eq-ok _ _ h' in
    (
      (distinct_names_sound duplicate_user [] _ users).1,
      (distinct_names_sound duplicate_group [] _ groups).1,
      references_known_sound config.groups config.users known,
    )

module _ (ext : Externals) where
  -- A reload that fails leaves the engine with the configuration that it had; one that succeeds
  -- leaves it with the compiled form of a configuration that `validate` accepts.
  pub reload-cases :
      (new_config : AclConfig) (current : CompiledAclConfig)
      → ((e : AclError) × (reload ext new_config current ≡ (err e, current)))
        ⊎ ((compiled : CompiledAclConfig) × (reload ext new_config current ≡ (ok tt, compiled))
            × (validate new_config ≡ ok tt)
            × (compile_config ext new_config ≡ ok compiled))
  unfolding reload
  reload-cases new_config current = elim (Result-cases (validate new_config)) [
    | inl (_, v) ↦ elim (Result-cases (compile_config ext new_config)) [
      | inl (compiled, c) ↦ inr (compiled, ground arith, v, c)
      | inr (e, c) ↦ inl (e, ground arith)
    ]
    | inr (e, v) ↦ inl (e, ground arith)
  ]

  compile_groups-keeps :
      (k : Text) (rest : List GroupAcl) (groups by_lowercase : List (Text × CompiledGroupAcl))
      (out : List (Text × CompiledGroupAcl) × List (Text × CompiledGroupAcl))
      → All (λ g. to_ascii_lowercase g.name ≢ k) rest
      → compile_groups ext rest (groups, by_lowercase) ≡ ok out
      → lookup k out.1 ≡ lookup k by_lowercase
  unfolding compile_groups
  compile_groups-keeps k [] groups by_lowercase out other h = ground arith
  compile_groups-keeps k (g ∷ rest) groups by_lowercase out other h =
      let (cg, _, h') = >>=-eq-ok (compile_group ext g) _ h in
      let low = to_ascii_lowercase g.name in
      compile_groups-keeps k rest _ _ out other.1 h'
      ∙ ground (arith, lookup-insert low k cg by_lowercase, text_eq_iff low k)

  compile_groups-last :
      (before : List GroupAcl) (g : GroupAcl) (after : List GroupAcl)
      (groups by_lowercase : List (Text × CompiledGroupAcl))
      (out : List (Text × CompiledGroupAcl) × List (Text × CompiledGroupAcl))
      → All (λ a. to_ascii_lowercase a.name ≢ to_ascii_lowercase g.name) after
      → compile_groups ext (before ++ g ∷ after) (groups, by_lowercase) ≡ ok out
      → (cg : CompiledGroupAcl) × (compile_group ext g ≡ ok cg)
        × (lookup (to_ascii_lowercase g.name) out.1 ≡ some cg)
  unfolding compile_groups
  compile_groups-last [] g after groups by_lowercase out other h =
      let (cg, done, h') = >>=-eq-ok (compile_group ext g) _ h in
      let low = to_ascii_lowercase g.name in
      (
        cg,
        done,
        compile_groups-keeps low after _ _ out other h'
            ∙ ground (arith, lookup-insert low low cg by_lowercase, text_eq_refl low),
      )
  compile_groups-last (b ∷ before) g after groups by_lowercase out other h =
      let (cb, _, h') = >>=-eq-ok (compile_group ext b) _ h in
      compile_groups-last before g after _ _ out other h'

  -- In a configuration that compiles, of the groups whose names agree up to ASCII case, only the
  -- last one's rules reach a user who comes with such a group and has no entry of their own.
  pub dynamic_rules-last :
      (config : AclConfig) (compiled : CompiledAclConfig) (user name : Text)
      (before : List GroupAcl) (g : GroupAcl) (after : List GroupAcl)
      → config.groups ≡ before ++ g ∷ after
      → All (λ a. to_ascii_lowercase a.name ≢ to_ascii_lowercase g.name) after
      → compile_config ext config ≡ ok compiled
      → lookup user compiled.users ≡ none
      → to_ascii_lowercase name ≡ to_ascii_lowercase g.name
      → (cg : CompiledGroupAcl) × (compile_group ext g ≡ ok cg)
        × (dynamic_rules compiled user (name ∷ []) ≡ cg.rules ++ [])
  unfolding compile_config dynamic_rules rules_of
  dynamic_rules-last config compiled user name before g after e other h absent same =
      let (us, _, h') = >>=-eq-ok (compile_users ext config.users []) _ h in
      let (maps, made, h'') = >>=-eq-ok (compile_groups ext config.groups ([], [])) _ h' in
      let (cg, done, found) =
        compile_groups-last before g after [] [] maps other
          (subst (λ gs. compile_groups ext gs ([], []) ≡ ok maps) e made) in
      (cg, done, ground (arith))
