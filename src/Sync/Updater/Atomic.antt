-- ===== src/Sync/Updater/Atomic.antt =====
-- An update that succeeds is one atomic edit of the Cache that the server stores.
use mathlib.Core.List.{Memᴰ}
use mathlib.Core.List.Memᴰ.{cases_cons}
use k8storagex.Sync.Updater.Keeps.{Attempts-last, read_cache-Inv, attempt-Inv}
use k8storagex.Sync.Updater.Server.{
  Since, Since-refl, Since-trans, Mem-Since, AreDistinct, AreDistinct-append, IsOptimistic,
}
use k8storagex.Base.{
  refl, List, ◌∷◌, ◌++◌, Result-cases, ℕ, ◌≡◌, sym, ap, ◌∙◌, String, Bool, true, none, ok,
  wrap-eq-none, arith, inl, inr,
}
use k8storagex.Api.Meta.{NamespacedName, ObjectMeta}
use k8storagex.Api.Cache.{Cache, CacheStatus}
use k8storagex.Sync.Volumes.{add_volume}
use k8storagex.Cluster.{Client, RetryOnConflict}
use k8storagex.Sync.Commit.{use_image, register_volume}
use k8storagex.Sync.Updater.{
  empty_cache, read_cache, create_cache, attempt, update_cache, register_cache_volume,
}

module _ {S : Type 0} (client : Client S Cache) (name : NamespacedName) where
  create_cache_get :
      (s s' : S) (c : Cache)
      → create_cache client name s ≡ (ok c, s')
      → client.get name (client.create (empty_cache name) s).1 ≡ (ok c, s')
  unfolding create_cache
  create_cache_get s s' c h = ground arith

  -- What is read comes from a `get`.
  read_cache_get :
      (create : Bool) (s s' : S) (c : Cache)
      → read_cache client name create s ≡ (ok c, s')
      → (t : S) × (client.get name t ≡ (ok c, s'))
  unfolding read_cache
  read_cache_get create s s' c h = elim (Result-cases (client.get name s).0) [
    | inl (d, e) ↦ (s, ground (arith, e, h))
    | inr (x, e) ↦ (
      (client.create (empty_cache name) (client.get name s).1).1,
      create_cache_get (client.get name s).1 s' c (ground (arith, e, h)),
    )
  ]

  -- The edit that an attempt makes, when it succeeds.
  attempt_success :
      {B : Type 0} (create : Bool) (modify : Cache → Cache × B) (b b' : B) (s s' : S)
      → attempt client name create modify (b, s) ≡ (none, (b', s'))
      → (c : Cache) × (d : Cache) × (t : S) × (u : S) × (client.get name t ≡ (ok c, u))
        × (client.update_status (modify c).0 u ≡ (ok d, s'))
        × (b' ≡ (modify c).1)
        × (u ≡ (read_cache client name create s).1)
  unfolding attempt
  attempt_success create modify b b' s s' h =
      elim (Result-cases (read_cache client name create s).0) [
        | inr (x, e) ↦ absurd (ground (arith, e, h))
        | inl (c, e) ↦
            elim (Result-cases
              (client.update_status (modify c).0 (read_cache client name create s).1).0) [
                | inr (x, f) ↦ absurd (ground (arith, e, f, h))
                | inl (d, f) ↦
                    let (t, got) =
                      read_cache_get create s (read_cache client name create s).1 c
                        (λ i. (e i, (read_cache client name create s).1)) in
                    (
                      c,
                      d,
                      t,
                      (read_cache client name create s).1,
                      got,
                      ground (arith, e, f, h),
                      ground (arith, e, f, h),
                      refl,
                    )
              ]
      ]

  module _ (history : S → List Cache) (kept : CacheStatus → CacheStatus) where
    -- From `s` to `s'`: the history has a version `d` directly on a version `c`, with all that was stored in
    -- `s` at or before `c`; `d` has the status that the edit of `c` makes, as the server keeps it, and `b` is
    -- what the edit of that same `c` assigned.
    abbrev pub Edited : {B : Type 0} → (Cache → Cache × B) → B → S → S → Type 0
    Edited modify b s s' =
        (c : Cache) × (d : Cache) × (later : List Cache) × (older : List Cache) × (history s'
          ≡ later ++ (d ∷ c ∷ older))
        × Since (history s) (c ∷ older)
        × (d.status ≡ kept (modify c).0.status)
        × (b ≡ (modify c).1)

    module _ (server : IsOptimistic client name history kept) where
      -- The version that was read is the one that the accepted write stands on.
      same_version :
          (c before d : Cache) (later older : List Cache) (u s' : S)
          → history s' ≡ later ++ (d ∷ before ∷ older)
          → Since (history u) (before ∷ older)
          → Memᴰ c (history u)
          → before.meta.resource_version ≡ c.meta.resource_version
          → before ≡ c
      same_version c before d later older u s' e since m same =
          elim (cases_cons (Mem-Since c (history u) (before ∷ older) since m)) [
            | inl here ↦ sym here
            | inr below ↦
                let all : AreDistinct (later ++ (d ∷ before ∷ older)) =
                  rw (← e) (server.distinct s') in
                let apart = AreDistinct-append later (d ∷ before ∷ older) all in
                absurd (apart.1.0 c below (sym same))
          ]

      update_cache_atomic :
          (retry : RetryOnConflict) {B : Type 0} (create : Bool) (modify : Cache → Cache × B)
          (b b' : B) (s s' : S)
          → ((c : Cache) → (modify c).0.meta ≡ c.meta)
          → update_cache client retry name create modify b s ≡ (none, b', s')
          → Edited modify b' s s'
      unfolding update_cache
      update_cache_atomic retry {B} create modify b b' s s' keeps h =
          let closure = attempt client name create modify in
          let inv : S → Type 0 = λ t. Since (history s) (history t) in
          let grows = server.grows (history s) in
          let ((b0, s0), h0, ends) =
            Attempts-last (λ (t : B × S). inv t.1) closure
              (attempt-Inv client inv grows name create modify) (retry.attempts _ closure (b, s))
              (Since-refl (history s)) in
          let (c, d, t, u, got, written, same, reached) =
            attempt_success create modify b0 b' s0 s'
              (ends ∙ (λ i. ((h i).0, ((h i).1, (h i).2)))) in
          let hu : inv u = rw reached (read_cache-Inv client inv grows name create s0 h0) in
          let (before, later, older, stored, since, version, status) =
            server.status_written (modify c).0 d u s' written in
          let one : before ≡ c =
            same_version c before d later older u s' stored since (server.get_stored t u c got)
              (version ∙ ap (λ (m : ObjectMeta). m.resource_version) (keeps c)) in
          (
            c,
            d,
            later,
            older,
            rw (← one) stored,
            rw (← one) (Since-trans (history s) (history u) (before ∷ older) hu since),
            status,
            same,
          )

meta-register_volume :
    (now : ℕ) (node volume d : String) (commit : Bool) (c : Cache)
    → (register_volume now node volume d commit c).0.meta ≡ c.meta
unfolding register_volume use_image add_volume
meta-register_volume now node volume d commit c = ground arith

module _ {S : Type 0} (client : Client S Cache) (name : NamespacedName) (retry : RetryOnConflict)
    (history : S → List Cache) (kept : CacheStatus → CacheStatus)
    (server : IsOptimistic client name history kept) where
  -- When the server has a history of the versions of the Cache from which nothing goes and in which no
  -- resource version is used twice, answers reads with versions of it, and accepts a status only directly on
  -- the version that the write carries, storing what it keeps of the status, then a registration that
  -- succeeds is one atomic edit of the Cache: afterwards the history has a version directly on another one,
  -- which is the newest at the call or was stored since, with the status, as the server keeps it, that the
  -- registration makes of that other one, and the image that is returned is what it hands out for it.
  pub register_cache_volume_atomic :
      (now : ℕ) (node volume d image : String) (commit : Bool) (s s' : S)
      → register_cache_volume client retry now name node volume d commit s ≡ (image, none, s')
      → Edited client name history kept (register_volume now node volume d commit) image s s'
  unfolding register_cache_volume
  register_cache_volume_atomic now node volume d image commit s s' h =
      let edit = register_volume now node volume d commit in
      let u = update_cache client retry name true edit "" s in
      let ok_update : u.0 ≡ none = wrap-eq-none "register volume in cluster" u.0 (λ i. (h i).1) in
      update_cache_atomic client name history kept server retry true edit "" image s s'
        (meta-register_volume now node volume d commit) (λ i. (ok_update i, (h i).0, (h i).2))
