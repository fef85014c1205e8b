-- ===== src/Release/Resolve/Rollout.antt =====
-- Whom a gray rollout reaches (app/release/service.py, `resolve` and `gray`).
use new_rag.Release.Versions.{gray_release, set_gray}
use new_rag.Release.Contract.{find_version, at_version, get_version}
use new_rag.Release.Flow.{ensure_not_terminated}
use new_rag.Base.{
  All-own, Exists, All-All, pos, ◌⊎◌, ℕ, ◌≤◌, ◌≡◌, refl, ap, sym, Bool, true, ◌&&◌, none, some,
  arith, leb, ◌==◌, Ident, ok, All, All-mono, Option-cases, inl, inr, is_some, ◌%◌, ◌<◌, ◌∙◌,
}
use new_rag.Base.Table.{latest-All, latest-ge, All-select, All-of-select, select, latest, update}
use new_rag.Base.Order.{
  any-false, any, find-order_desc, is_some-latest-select, any-select, any_mono, any-update,
}
use new_rag.Base.Keys.{Distinct, first-select-key}
use new_rag.Release.Model.{Status, draft, active, disabled, gray, is_gray, VersionRow, Db}
use new_rag.Release.Resolve.{gray_percentage, gray_of, takes_in, gray_hit, resolve, served}

module _ (stable_hash : Ident → ℕ) (tenant agent : Ident) where
  gray_hit-latest :
      (user : Ident) (db : Db)
      → gray_hit stable_hash tenant agent (some user) db
        ≡ latest
            (λ r. r.version)
            (select (takes_in stable_hash user) (select (gray_of tenant agent) db.versions))
  unfolding gray_hit
  gray_hit-latest user db =
      find-order_desc (λ r. r.version) (takes_in stable_hash user)
        (select (gray_of tenant agent) db.versions)

  gray_hit-none : (db : Db) → gray_hit stable_hash tenant agent none db ≡ none
  unfolding gray_hit
  gray_hit-none db = refl

  -- A user is served the highest of the gray versions that take the user in. A user that none takes
  -- in is served as a call without a user is: by the highest ACTIVE version, if there is one.
  pub resolve-latest :
      (user : Ident) (db : Db)
      → resolve stable_hash tenant agent (some user) db
        ≡ elim (latest
            (λ r. r.version)
            (select (takes_in stable_hash user) (select (gray_of tenant agent) db.versions))) [
              | some r ↦ ok (served gray r)
              | none ↦ resolve stable_hash tenant agent none db
            ]
  unfolding resolve
  resolve-latest user db = ground (arith, gray_hit-latest user db, gray_hit-none db)

  abbrev reached : Ident → VersionRow → Bool
  reached user r = gray_of tenant agent r && takes_in stable_hash user r

  gray_hit-any :
      (user : Ident) (db : Db)
      → is_some (gray_hit stable_hash tenant agent (some user) db) ≡ any (reached user) db.versions
  gray_hit-any user db =
      ap is_some (gray_hit-latest user db)
      ∙ is_some-latest-select (λ r. r.version) (takes_in stable_hash user)
          (select (gray_of tenant agent) db.versions)
      ∙ any-select (takes_in stable_hash user) (gray_of tenant agent) db.versions

  -- A GRAY version of the agent that takes the user in and serves the call, no other such version
  -- being higher.
  abbrev pub IsServed : Ident → Db → VersionRow → Type 0
  IsServed user db r =
      Exists (λ x. x ≡ r) db.versions
      × (r.tenant ≡ tenant)
      × (r.agent ≡ agent)
      × (r.status ≡ gray)
      × (stable_hash user % 100 < gray_percentage r)
      × All
          (λ x.
            x.tenant ≡ tenant
            → x.agent ≡ agent
            → x.status ≡ gray
            → stable_hash user % 100 < gray_percentage x
            → x.version ≤ r.version)
          db.versions
      × (resolve stable_hash tenant agent (some user) db ≡ ok (served gray r))

  is_gray-gray : (s : Status) → is_gray s ≡ true → s ≡ gray
  is_gray-gray gray e = refl
  is_gray-gray draft e = absurd (ground arith)
  is_gray-gray active e = absurd (ground arith)
  is_gray-gray disabled e = absurd (ground arith)

  gray_hit-IsServed :
      (user : Ident) (db : Db) (r : VersionRow)
      → gray_hit stable_hash tenant agent (some user) db ≡ some r
      → IsServed user db r
  unfolding resolve
  gray_hit-IsServed user db r e =
      let key = λ (x : VersionRow). x.version in
      let mine = gray_of tenant agent in
      let takes = takes_in stable_hash user in
      let l = sym (gray_hit-latest user db) ∙ e in
      let P =
        λ (x : VersionRow). Exists (λ y. y ≡ x) db.versions × (mine x ≡ true) × (takes x ≡ true) in
      let all : All P (select takes (select mine db.versions)) =
        All-select P takes (select mine db.versions) (
          All-select (λ x. takes x ≡ true → P x) mine db.versions
            (All-mono (λ x own m t. (own, m, t)) db.versions (All-own db.versions))) in
      let hit = latest-All P key (select takes (select mine db.versions)) all l in
      let top = latest-ge key (select takes (select mine db.versions)) l in
      (
        hit.0,
        ground arith,
        ground arith,
        is_gray-gray r.status (ground arith),
        ground arith,
        All-mono
            {Q = λ x.
              x.tenant ≡ tenant
              → x.agent ≡ agent
              → x.status ≡ gray
              → stable_hash user % 100 < gray_percentage x
              → x.version ≤ r.version}
            (λ x low t a g lt.
              let grays : is_gray x.status ≡ true = ap is_gray g in
              low (ground arith) (ground arith))
            db.versions
            (All-of-select (λ x. takes x ≡ true → x.version ≤ r.version) mine db.versions
              (All-of-select (λ x. x.version ≤ r.version) takes (select mine db.versions) top)),
        ground arith,
      )

  -- If a gray version of the agent is at 100 percent or more, every user is served by a GRAY version
  -- of the agent that takes the user in, the highest of those.
  pub resolve-full :
      (user : Ident) (db : Db)
      → any (λ r. gray_of tenant agent r && leb 100 (gray_percentage r)) db.versions ≡ true
      → (r : VersionRow) × IsServed user db r
  unfolding resolve
  resolve-full user db h =
      let small : stable_hash user % 100 < 100 = omega arith in
      let hit =
        any_mono (λ r. gray_of tenant agent r && leb 100 (gray_percentage r)) (reached user)
          db.versions (All-All (λ r k. ground arith) db.versions) h in
      elim (Option-cases (gray_hit stable_hash tenant agent (some user) db)) [
        | inl n ↦ absurd (ground (arith, gray_hit-any user db))
        | inr (r, e) ↦ (r, gray_hit-IsServed user db r e)
      ]

  -- Where all gray versions are at 0 percent, every user is served as a call without a user is.
  pub resolve-none :
      (user : Ident) (db : Db)
      → All (λ r. gray_of tenant agent r ≡ true → gray_percentage r ≡ 0) db.versions
      → resolve stable_hash tenant agent (some user) db ≡ resolve stable_hash tenant agent none db
  unfolding resolve
  resolve-none user db h =
      let miss = any-false (reached user) db.versions (
        All-mono {P = λ r. gray_of tenant agent r ≡ true → gray_percentage r ≡ 0}
          (λ r zero_at. ground (arith, zero_at)) db.versions h) in
      elim (Option-cases (gray_hit stable_hash tenant agent (some user) db)) [
        | inl n ↦ ground (arith, gray_hit-none db)
        | inr (r, e) ↦ absurd (ground (arith, gray_hit-any user db))
      ]

  -- `gray` writes the row that it found, or nothing.
  gray_release-rows :
      (v p : ℕ) (db : Db) (row : VersionRow)
      → find_version tenant agent v db ≡ some row
      → let out = (gray_release tenant agent v (pos p) db).1.versions in
        (out ≡ db.versions) ⊎ (out ≡ update (λ r. r.id == row.id) (set_gray p) db.versions)
  unfolding gray_release ensure_not_terminated get_version
  gray_release-rows v p db row found = ground arith

  gray_percentage-set_gray : (p : ℕ) (x : VersionRow) → gray_percentage (set_gray p x) ≡ p
  unfolding gray_percentage
  gray_percentage-set_gray p x = refl

  raised :
      (user p : ℕ) (x row : VersionRow)
      → x ≡ row
      → gray_percentage row ≤ p
      → reached user x ≡ true
      → reached user (set_gray p x) ≡ true
  raised user p x row same le hit =
      let le' : gray_percentage x ≤ p = rw same le in ground (arith, gray_percentage-set_gray p x)

  -- A user whom the gray versions reach is still reached after the percentage of some version was
  -- raised by `gray`, or kept.
  pub gray-keeps_reached :
      (user : Ident) (v p : ℕ) (db : Db) (row : VersionRow)
      → Distinct (λ r. r.id) db.versions
      → find_version tenant agent v db ≡ some row
      → gray_percentage row ≤ p
      → is_some (gray_hit stable_hash tenant agent (some user) db) ≡ true
      → is_some
          (gray_hit stable_hash tenant agent (some user) (gray_release tenant agent v (pos p) db).1)
        ≡ true
  gray-keeps_reached user v p db row d found le h =
      let before : any (reached user) db.versions ≡ true = sym (gray_hit-any user db) ∙ h in
      gray_hit-any user (gray_release tenant agent v (pos p) db).1
      ∙ elim (gray_release-rows v p db row found) [
        | inl e ↦ rw e before
        | inr e ↦ rw e (
            any-update (reached user) (λ r. r.id == row.id) (set_gray p) db.versions
              (All-mono {P = λ x. x.id ≡ row.id → x ≡ row}
                {Q = λ x.
                  reached user x ≡ true
                  → (x.id == row.id) ≡ true
                  → reached user (set_gray p x) ≡ true}
                (λ x key hit same. raised user p x row (key (ground arith)) le hit) db.versions
                (first-select-key (λ r. r.id) (at_version tenant agent v) db.versions row d
                  (unfold find_version in found)))
              before)
      ]
