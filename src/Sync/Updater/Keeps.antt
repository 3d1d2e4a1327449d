-- ===== src/Sync/Updater/Keeps.antt =====
-- What the updates of a Cache leave as it was: all that the client's calls leave.
use mathlib.Core.Path.{subst}
use k8storagex.Base.{
  ℕ, ◌≡◌, String, Bool, true, false, Option, Error, is_not_found, is_already_exists, Io, inl, inr,
  Bool-cases, Option-cases, Result-cases,
}
use k8storagex.Api.Meta.{NamespacedName}
use k8storagex.Api.Cache.{Cache}
use k8storagex.Cluster.{Client, RetryOnConflict, Attempts, last, again}
use k8storagex.Sync.Commit.{register_volume, prepare_commit, unregister_volume}
use k8storagex.Sync.Updater.{
  empty_cache, create_cache, read_cache, attempt, update_cache, register_cache_volume,
  prepare_cache_commit, unregister_cache_volume,
}

Attempts-Inv :
    {T : Type 0} (Inv : T → Type 0) (m : Io T (Option Error))
    → ((t : T) → Inv t → Inv (m t).1)
    → {t : T} {o : Option Error × T} → Attempts m t o
    → Inv t
    → Inv o.1
Attempts-Inv Inv m keep (last {t = t} e) h = subst (λ o. Inv o.1) e (keep t h)
Attempts-Inv Inv m keep (again {t = t} e c rest) h =
    Attempts-Inv Inv m keep rest (subst (λ o. Inv o.1) e (keep t h))

-- The last attempt of a row starts from a state that the ones before have kept.
pub Attempts-last :
    {T : Type 0} (Inv : T → Type 0) (m : Io T (Option Error))
    → ((t : T) → Inv t → Inv (m t).1)
    → {t : T} {o : Option Error × T} → Attempts m t o
    → Inv t
    → (u : T) × Inv u × (m u ≡ o)
Attempts-last Inv m keep (last {t = t} e) h = (t, h, e)
Attempts-last Inv m keep (again {t = t} e c rest) h =
    Attempts-last Inv m keep rest (subst (λ o. Inv o.1) e (keep t h))

-- The client's calls that updates make keep `Inv`.
pub record ClientKeeps {S : Type 0} (client : Client S Cache) (Inv : S → Type 0) : Type 0 where
  pub get : (name : NamespacedName) (s : S) → Inv s → Inv (client.get name s).1
  pub create : (c : Cache) (s : S) → Inv s → Inv (client.create c s).1
  pub update_status : (c : Cache) (s : S) → Inv s → Inv (client.update_status c s).1

module _ {S : Type 0} (client : Client S Cache) (Inv : S → Type 0)
    (keeps : ClientKeeps client Inv) where
  create_cache-Inv : (name : NamespacedName) (s : S) → Inv s → Inv (create_cache client name s).1
  unfolding create_cache
  create_cache-Inv name s h =
      let s1 = (client.create (empty_cache name) s).1 in
      let h1 = keeps.create (empty_cache name) s h in
      elim (Result-cases (client.create (empty_cache name) s).0) [
        | inl (c, r) ↦ simp (r, create_cache) (keeps.get name s1 h1)
        | inr (e, r) ↦ elim (Bool-cases (is_already_exists e)) [
          | inl b ↦ simp (r, b, create_cache) (keeps.get name s1 h1)
          | inr b ↦ simp (r, b, create_cache) h1
        ]
      ]

  pub read_cache-Inv :
      (name : NamespacedName) (create : Bool) (s : S)
      → Inv s
      → Inv (read_cache client name create s).1
  unfolding read_cache
  read_cache-Inv name create s h =
      let s1 = (client.get name s).1 in
      let h1 = keeps.get name s h in
      elim (Result-cases (client.get name s).0) [
        | inl (c, r) ↦ simp (r, read_cache) h1
        | inr (e, r) ↦ elim (Bool-cases (is_not_found e)) [
          | inr b ↦ simp (r, b, read_cache) h1
          | inl b ↦ elim (Bool-cases create) [
            | inl k ↦ simp (r, b, k, read_cache) (create_cache-Inv name s1 h1)
            | inr k ↦ simp (r, b, k, read_cache) h1
          ]
        ]
      ]

  pub attempt-Inv :
      {B : Type 0} (name : NamespacedName) (create : Bool) (modify : Cache → Cache × B) (t : B × S)
      → Inv t.1
      → Inv (attempt client name create modify t).1.1
  unfolding attempt
  attempt-Inv name create modify (b, s) h =
      let s1 = (read_cache client name create s).1 in
      let h1 = read_cache-Inv name create s h in
      elim (Result-cases (read_cache client name create s).0) [
        | inr (e, r) ↦ simp (r, attempt) h1
        | inl (c, r) ↦ simp (r, attempt) (keeps.update_status (modify c).0 s1 h1)
      ]

  module _ (retry : RetryOnConflict) where
    update_cache-Inv :
        {B : Type 0} (name : NamespacedName) (create : Bool) (modify : Cache → Cache × B) (b : B)
        (s : S)
        → Inv s
        → Inv (update_cache client retry name create modify b s).2
    unfolding update_cache
    update_cache-Inv name create modify b s h =
        Attempts-Inv (λ t. Inv t.1) (attempt client name create modify)
          (attempt-Inv name create modify)
          (retry.attempts _ (attempt client name create modify) (b, s)) h

    pub register_cache_volume-Inv :
        (now : ℕ) (name : NamespacedName) (node volume image : String) (commit : Bool) (s : S)
        → Inv s
        → Inv (register_cache_volume client retry now name node volume image commit s).2
    unfolding register_cache_volume
    register_cache_volume-Inv now name node volume image commit s h =
        update_cache-Inv name true (register_volume now node volume image commit) "" s h

    pub prepare_cache_commit-Inv :
        (now : ℕ) (name : NamespacedName) (node volume : String) (s : S)
        → Inv s
        → Inv (prepare_cache_commit client retry now name node volume s).2
    unfolding prepare_cache_commit
    prepare_cache_commit-Inv now name node volume s h =
        let edit = prepare_commit now node volume in
        let h1 = update_cache-Inv name false edit false s h in
        elim (Option-cases (update_cache client retry name false edit false s).0) [
          | inl r ↦ simp (r, prepare_cache_commit) h1
          | inr (e, r) ↦ elim (Bool-cases (is_not_found e)) [
            | inl b ↦ simp (r, b, prepare_cache_commit) h1
            | inr b ↦ simp (r, b, prepare_cache_commit) h1
          ]
        ]

    pub unregister_cache_volume-Inv :
        (now : ℕ) (name : NamespacedName) (node volume : String) (failure : Option Error) (s : S)
        → Inv s
        → Inv (unregister_cache_volume client retry now name node volume failure s).1
    unfolding unregister_cache_volume
    unregister_cache_volume-Inv now name node volume failure s h =
        let edit : Cache → Cache × Unit {0} =
          λ c. (unregister_volume now node volume failure c, tt) in
        let h1 = update_cache-Inv name false edit (tt {0}) s h in
        elim (Option-cases (update_cache client retry name false edit (tt {0}) s).0) [
          | inl r ↦ simp (r, unregister_cache_volume) h1
          | inr (e, r) ↦ elim (Bool-cases (is_not_found e)) [
            | inl b ↦ simp (r, b, unregister_cache_volume) h1
            | inr b ↦ simp (r, b, unregister_cache_volume) h1
          ]
        ]
