-- ===== src/Sync/Updater/Server.antt =====
-- What the API server documents of the versions of an object.
use mathlib.Core.List.{Memᴰ}
use mathlib.Core.List.Memᴰ.{tail}
use k8storagex.Base.{◌≡◌, refl, ◌≢◌, ap, sym, ◌∙◌, List, [], ◌∷◌, ◌++◌, ok}
use k8storagex.Api.Meta.{NamespacedName}
use k8storagex.Api.Cache.{Cache, CacheStatus}
use k8storagex.Cluster.{Client}
use k8storagex.Sync.Updater.Keeps.{ClientKeeps}

-- The list `new` is `old` with more in front.
abbrev pub Since : List Cache → List Cache → Type 0
Since old new = (more : List Cache) × (new ≡ more ++ old)

pub Since-refl : (old : List Cache) → Since old old
Since-refl old = ([], refl)

append_assoc : (xs ys zs : List Cache) → xs ++ (ys ++ zs) ≡ (xs ++ ys) ++ zs
append_assoc [] ys zs = refl
append_assoc (x ∷ xs) ys zs = ap (λ l. x ∷ l) (append_assoc xs ys zs)

pub Since-trans : (a b c : List Cache) → Since a b → Since b c → Since a c
Since-trans a b c (xs, e) (ys, f) = (ys ++ xs, f ∙ (ap (λ l. ys ++ l) e ∙ append_assoc ys xs a))

Mem-append : (c : Cache) (more old : List Cache) → Memᴰ c old → Memᴰ c (more ++ old)
Mem-append c [] old m = m
Mem-append c (x ∷ more) old m = tail (Mem-append c more old m)

pub Mem-Since : (c : Cache) (old new : List Cache) → Since old new → Memᴰ c old → Memᴰ c new
Mem-Since c old new (more, e) m = rw e (Mem-append c more old m)

-- No two versions in the list have one resource version.
abbrev pub AreDistinct : List Cache → Type 0
AreDistinct [] = Unit
AreDistinct (x ∷ xs) =
    ((y : Cache) → Memᴰ y xs → y.meta.resource_version ≢ x.meta.resource_version) × AreDistinct xs

pub AreDistinct-append : (xs ys : List Cache) → AreDistinct (xs ++ ys) → AreDistinct ys
AreDistinct-append [] ys d = d
AreDistinct-append (x ∷ xs) ys d = AreDistinct-append xs ys d.1

-- `history` tells which versions of the object the server has stored, whoever wrote them, the newest first,
-- and `kept` what it keeps of a status that it is sent, as a time is kept to the second. Nothing that was
-- stored leaves the history, no resource version is used twice, and a read answers with a stored version.
-- A write of the status is accepted only while the newest version is the one of which the write carries
-- the resource version, and is stored directly on it; other clients may have written before since the call
-- began, and may have written again when it returns.
pub record IsOptimistic {S : Type 0} (client : Client S Cache) (name : NamespacedName)
    (history : S → List Cache) (kept : CacheStatus → CacheStatus) : Type 0 where
  pub grows : (old : List Cache) → ClientKeeps client (λ s. Since old (history s))
  pub distinct : (s : S) → AreDistinct (history s)
  pub get_stored : (s s' : S) (c : Cache) → client.get name s ≡ (ok c, s') → Memᴰ c (history s')
  pub status_written :
      (c d : Cache) (s s' : S)
      → client.update_status c s ≡ (ok d, s')
      → (before : Cache) × (later : List Cache) × (older : List Cache) × (history s'
          ≡ later ++ (d ∷ before ∷ older))
        × Since (history s) (before ∷ older)
        × (before.meta.resource_version ≡ c.meta.resource_version)
        × (d.status ≡ kept c.status)

abbrev drop_first : List Cache → List Cache
drop_first [] = []
drop_first (x ∷ xs) = xs

-- In a list of distinct versions only the first one has the first one's resource version.
first_version :
    (before c newest : Cache) (more rest older : List Cache)
    → before ∷ rest ≡ more ++ (newest ∷ older)
    → AreDistinct (before ∷ rest)
    → Memᴰ c older
    → c.meta.resource_version ≢ before.meta.resource_version
first_version before c newest [] rest older e distinct m same =
    let shape : rest ≡ older = ap drop_first e in distinct.0 c (rw shape m) same
first_version before c newest (x ∷ more) rest older e distinct m same =
    let shape : rest ≡ more ++ (newest ∷ older) = ap drop_first e in
    distinct.0 c (rw shape (Mem-append c more (newest ∷ older) (tail m))) same

-- Such a server refuses a write that carries the resource version of a stored version other than the newest,
-- so that it never overwrites what another client has written since.
stale_refused :
    {S : Type 0} (client : Client S Cache) (name : NamespacedName) (history : S → List Cache)
    (kept : CacheStatus → CacheStatus) (server : IsOptimistic client name history kept)
    (e c newest d : Cache) (older : List Cache) (s s' : S)
    → history s ≡ newest ∷ older
    → Memᴰ c older
    → e.meta.resource_version ≡ c.meta.resource_version
    → ¬ (client.update_status e s ≡ (ok d, s'))
stale_refused client name history kept server e c newest d older s s' now m same accepted =
    let (before, later, rest, stored, (more, since), version, _) =
      server.status_written e d s s' accepted in
    let all : AreDistinct (later ++ (d ∷ before ∷ rest)) = rw (← stored) (server.distinct s') in
    let distinct = (AreDistinct-append later (d ∷ before ∷ rest) all).1 in
    first_version before c newest more rest older (since ∙ ap (λ l. more ++ l) now) distinct m
      (sym (version ∙ same))
