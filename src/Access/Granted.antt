-- ===== src/Access/Granted.antt =====
-- The grants that are found or created for those of the source control manager's: the first half of
-- `SyncCompanyGroupPermissions`.
use buildbeaver.Base.{
  ◌==◌, Bool-cases, any, All, All-map, ℕ, ◌≡◌, refl, sym, ap, ◌∙◌, ◌≢◌, inl, inr, Bool, true, false,
  not, Option, none, some, List, [], ◌∷◌, ◌++◌, arith,
}
use buildbeaver.Models.{Text}
use buildbeaver.Models.Laws.{text_eq_iff, text_eq_refl}
use buildbeaver.Queue.{select}
use buildbeaver.Paging.{HasDistinctIds}
use buildbeaver.Paging.Deletion.{All-both}
use buildbeaver.Access.{
  ResourceId, Grant, AccessDb, grant_marker, column_eq, resource_eq, authorizes_same, for_group,
  grant_valid, read_by_authorized_operation, create_grant, find_or_create_grant,
  find_or_create_grants, resource_id_text, to_unique_string,
}
use buildbeaver.Access.Lists.{
  any-append_left, first-any, first-none, any-false, All-append_one, any-append_one,
  select-append_one,
}

append_one-HasDistinctIds :
    (xs : List Grant) (x : Grant)
    → HasDistinctIds grant_marker xs
    → All (λ y. y.id ≢ x.id) xs
    → HasDistinctIds grant_marker (xs ++ (x ∷ []))
unfolding HasDistinctIds
append_one-HasDistinctIds [] x d h = (tt, tt)
append_one-HasDistinctIds (y ∷ xs) x d h =
    (All-append_one _ xs x d.0 h.0, append_one-HasDistinctIds xs x d.1 h.1)

column_eq-some : (a : Option ℕ) (b : ℕ) → column_eq a (some b) ≡ true → a ≡ some b
column_eq-some none b h = cc
column_eq-some (some a) b h = ap some (ground (arith, h))

column_eq-none : (a : Option ℕ) → column_eq a none ≡ false
column_eq-none none = refl
column_eq-none (some a) = refl

resource_id_text-eq :
    (uuid_text : ℕ → Text) (a b : ResourceId)
    → resource_eq a b ≡ true
    → resource_id_text uuid_text a ≡ resource_id_text uuid_text b
unfolding resource_eq resource_id_text
resource_id_text-eq uuid_text a b h =
    let kinds : a.kind ≡ b.kind = (text_eq_iff a.kind b.kind).0 (ground (arith, h)) in
    let ids : a.id ≡ b.id = ground (arith, h) in rw (kinds, ids) refl

module _ (group_id : ℕ) where
  -- A grant to the group and to no identity.
  abbrev pub IsToGroup : Grant → Type 0
  IsToGroup g = (g.authorized_identity_id ≡ none) × (g.authorized_group_id ≡ some group_id)

  -- A grant that the database finds for another one of the group.
  pub authorizes_same-to_unique_string :
      (uuid_text : ℕ → Text) (s g : Grant)
      → IsToGroup s
      → (for_group group_id g ≡ true → g.authorized_identity_id ≡ none)
      → authorizes_same s g ≡ true
      → to_unique_string uuid_text g ≡ to_unique_string uuid_text s
  unfolding authorizes_same to_unique_string for_group
  authorizes_same-to_unique_string uuid_text s g (i, o) v h =
      let nobody : column_eq g.authorized_identity_id s.authorized_identity_id ≡ false =
        ap (column_eq g.authorized_identity_id) i ∙ column_eq-none g.authorized_identity_id in
      let group : column_eq g.authorized_group_id (some group_id) ≡ true =
        ap (column_eq g.authorized_group_id) (sym o) ∙ ground (arith, h, nobody) in
      let types : g.operation_resource_type ≡ s.operation_resource_type =
        (text_eq_iff _ s.operation_resource_type).0 (ground (arith, h)) in
      let names : g.operation_name ≡ s.operation_name =
        (text_eq_iff _ s.operation_name).0 (ground (arith, h)) in
      let targets =
        resource_id_text-eq uuid_text g.target_resource_id s.target_resource_id
          (ground (arith, h)) in
      rw (v group, i, o, column_eq-some g.authorized_group_id group_id group, types, names, targets)
        refl

  authorizes_same-own : (s : Grant) → IsToGroup s → authorizes_same s s ≡ true
  unfolding authorizes_same resource_eq
  authorizes_same-own s (i, o) =
      let t = text_eq_refl s.operation_resource_type in
      let n = text_eq_refl s.operation_name in
      let k = text_eq_refl s.target_resource_id.kind in rw (i, o, t, n, k) (ground arith)

  for_group-own : (s : Grant) → IsToGroup s → for_group group_id s ≡ true
  unfolding for_group
  for_group-own s (i, o) = rw o (ground arith)

  find_or_create_grant-found :
      (s : Grant) (db : AccessDb)
      → any (authorizes_same s) db.grants ≡ true
      → find_or_create_grant s db ≡ some db
  unfolding find_or_create_grant read_by_authorized_operation
  find_or_create_grant-found s db h =
      let (r, e) = first-any (authorizes_same s) db.grants h in
      rw (find_or_create_grant, read_by_authorized_operation, e) refl

  find_or_create_grant-created :
      (s : Grant) (db : AccessDb)
      → grant_valid s ≡ true
      → All (λ r. r.id ≢ s.id) db.grants
      → any (authorizes_same s) db.grants ≡ false
      → find_or_create_grant s db ≡ some (record db { grants = db.grants ++ (s ∷ []) })
  unfolding find_or_create_grant read_by_authorized_operation create_grant
  find_or_create_grant-created s db v f h =
      rw
        (
          find_or_create_grant,
          read_by_authorized_operation,
          first-none (authorizes_same s) db.grants h,
          create_grant,
          v,
          any-false (λ r. r.id == s.id) db.grants (All-map db.grants f λ r n. ground (arith, n)),
        )
        refl

  -- The IDs of new grants are none of those of the rows.
  abbrev pub HasFreshIds : List Grant → List Grant → Type 0
  HasFreshIds rows gs = All (λ s. All (λ r. r.id ≢ s.id) rows) gs

  -- A grant to the group is to no identity.
  abbrev pub IsToOne : Grant → Type 0
  IsToOne g = for_group group_id g ≡ true → g.authorized_identity_id ≡ none

  -- What the grants are when those that the source control manager lists have been found or created.
  abbrev pub Granting : List Grant → List Grant → List Grant → Type 0
  Granting gs old rows =
      HasDistinctIds grant_marker rows
      × All IsToOne rows
      × All (λ s. any (authorizes_same s) rows ≡ true) gs
      × (select (λ g. not (for_group group_id g)) rows
          ≡ select (λ g. not (for_group group_id g)) old)
      × ((h : Grant → Bool) → any h old ≡ true → any h rows ≡ true)

  pub find_or_create_grants-Granting :
      (gs : List Grant) (db : AccessDb)
      → HasDistinctIds grant_marker db.grants
      → All IsToOne db.grants
      → HasDistinctIds grant_marker gs
      → All (λ s. grant_valid s ≡ true) gs
      → All IsToGroup gs
      → HasFreshIds db.grants gs
      → (rows : List Grant) × (find_or_create_grants gs db ≡ some (record db { grants = rows }))
        × Granting gs db.grants rows
  unfolding find_or_create_grants HasDistinctIds
  find_or_create_grants-Granting [] db d o dg v t f = (db.grants, refl, (d, o, tt, refl, λ h e. e))
  find_or_create_grants-Granting (s ∷ gs) db d o dg v t f =
      elim (Bool-cases (any (authorizes_same s) db.grants)) [
        | inl e ↦
            let (rows, ran, (d', o', all, rest, grows)) =
              find_or_create_grants-Granting gs db d o dg.1 v.1 t.1 f.1 in
            (
              rows,
              rw (find_or_create_grant-found s db e) ran,
              (d', o', (grows _ e, all), rest, grows),
            )
        | inr e ↦
            let (rows, ran, (d', o', all, rest, grows)) =
              find_or_create_grants-Granting gs (record db { grants = db.grants ++ (s ∷ []) })
                (append_one-HasDistinctIds db.grants s d f.0)
                (All-append_one IsToOne db.grants s o (λ h. t.0.0)) dg.1 v.1 t.1
                (All-both _ _ gs f.1 dg.0 λ s' h n. All-append_one _ db.grants s h n) in
            (
              rows,
              rw (find_or_create_grant-created s db v.0 f.0 e) ran,
              (
                d',
                o',
                (grows _ (any-append_one _ db.grants s (authorizes_same-own s t.0)), all),
                rest ∙ select-append_one _ db.grants s (ap not (for_group-own s t.0)),
                λ h k. grows h (any-append_left h db.grants (s ∷ []) k),
              ),
            )
      ]

  pub find_or_create_grants-found :
      (gs : List Grant) (db : AccessDb)
      → All (λ s. any (authorizes_same s) db.grants ≡ true) gs
      → find_or_create_grants gs db ≡ some db
  unfolding find_or_create_grants
  find_or_create_grants-found [] db h = refl
  find_or_create_grants-found (s ∷ gs) db h =
      rw (find_or_create_grant-found s db h.0) (find_or_create_grants-found gs db h.1)
