-- ===== src/Commands/Laws.antt =====
-- What the commands do with the store that they open.
use k8storagex.Base.{
  String, Result, ok, err, inl, inr, Bool-cases, Option-cases, Result-cases, ◌==◌, string_eq,
}
use k8storagex.Layers.{Store}
use k8storagex.Commands.{
  Flags, StoreOptions, SystemContext, Platform, store_options, system_context, new_store,
  to_cluster_synced_store,
}

-- The calls that open a store, and those after the mount, touch neither directories nor containers.
pub record PlatformKeeps {S : Type 0} (platform : Platform S) (Inv : S → Type 0) : Type 0 where
  pub default_options : (s : S) → Inv s → Inv (platform.default_options s).1
  pub get_store : (o : StoreOptions) (s : S) → Inv s → Inv (platform.get_store o s).1
  pub in_cluster_config : (s : S) → Inv s → Inv (platform.in_cluster_config s).1
  pub rest_mapper : (s : S) → Inv s → Inv (platform.rest_mapper s).1
  pub new_client : (s : S) → Inv s → Inv (platform.new_client s).1
  pub free : (s : S) → Inv s → Inv (platform.free s)

module _ {S : Type 0} (platform : Platform S) (local : SystemContext → Store S)
    (synchronized : String → Store S → Store S) where
  -- The store that was opened, with what is known of its world.
  abbrev pub Opened : (Inv : S → Type 0) (Good : Store S → Type 0) → Result (Store S) → S → Type 0
  Opened Inv Good (ok store) s = Inv s × Good store
  Opened Inv Good (err e) s = Inv s

  module _ (Inv : S → Type 0) (keeps : PlatformKeeps platform Inv) (Good : Store S → Type 0)
      (good_local : (context : SystemContext) → Good (local context))
      (good_synchronized : (node : String) (store : Store S)
        → Good store
        → Good (synchronized node store)) where
    to_cluster_synced_store-Opened :
        (flags : Flags) (store : Store S) (s : S)
        → Inv s
        → Good store
        → Opened Inv Good
            (to_cluster_synced_store platform local synchronized flags store s).0
            (to_cluster_synced_store platform local synchronized flags store s).1
    unfolding to_cluster_synced_store
    to_cluster_synced_store-Opened flags store s h good =
        let s1 = (platform.in_cluster_config s).1 in
        let h1 = keeps.in_cluster_config s h in
        let s2 = (platform.rest_mapper s1).1 in
        let h2 = keeps.rest_mapper s1 h1 in
        let h3 = keeps.new_client s2 h2 in
        elim (Bool-cases (flags.node_name == "")) [
          | inl n ↦ simp (n, to_cluster_synced_store) h
          | inr n ↦ elim (Option-cases (platform.in_cluster_config s).0) [
            | inr (e, r) ↦ simp (n, r, to_cluster_synced_store) h1
            | inl r ↦ elim (Option-cases (platform.rest_mapper s1).0) [
              | inr (e, q) ↦ simp (n, r, q, to_cluster_synced_store) h2
              | inl q ↦ elim (Option-cases (platform.new_client s2).0) [
                | inr (e, p) ↦ simp (n, r, q, p, to_cluster_synced_store) h3
                | inl p ↦
                    simp (n, r, q, p, to_cluster_synced_store)
                      (h3, good_synchronized flags.node_name store good)
              ]
            ]
          ]
        ]

    pub new_store-Opened :
        (flags : Flags) (s : S)
        → Inv s
        → Opened Inv Good
            (new_store platform local synchronized flags s).0
            (new_store platform local synchronized flags s).1
    unfolding new_store
    new_store-Opened flags s h =
        let s1 = (platform.default_options s).1 in
        let h1 = keeps.default_options s h in
        elim (Result-cases (platform.default_options s).0) [
          | inr (e, r) ↦ simp (r, new_store) h1
          | inl (defaults, r) ↦
              let o = store_options platform.join flags defaults in
              let s2 = (platform.get_store o s1).1 in
              let h2 = keeps.get_store o s1 h1 in
              let store = local (system_context flags) in
              let good = good_local (system_context flags) in
              elim (Option-cases (platform.get_store o s1).0) [
                | inr (e, q) ↦ simp (r, q, new_store) h2
                | inl q ↦ elim (Bool-cases flags.enable_sync) [
                  | inr f ↦ simp (r, q, f, new_store) (h2, good)
                  | inl f ↦
                      let call =
                        to_cluster_synced_store platform local synchronized flags store s2 in
                      let h3 = to_cluster_synced_store-Opened flags store s2 h2 good in
                      elim (Result-cases call.0) [
                        | inr (e, p) ↦ simp (r, q, f, p, new_store) (simp p at h3)
                        | inl (synced, p) ↦ simp (r, q, f, p, new_store) (simp p at h3)
                      ]
                ]
              ]
        ]
