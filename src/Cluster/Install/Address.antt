-- ===== src/Cluster/Install/Address.antt =====
-- The address that the nodes of a cluster are given.
use autok3s.Base.{
  String, true, false, List, [], ◌∷◌, some, ◌≡◌, refl, ap, ◌∙◌, sym, arith, ok, ◌⊎◌, inl, inr, ◌==◌,
  Bool-cases, ok_injective,
}
use autok3s.Base.Exec.{◌>>=◌, lift, modify, continue}
use autok3s.Types.{Node, Cluster}
use autok3s.Cluster.World.{ProviderBase, World, Outside}
use autok3s.Cluster.Install.{first, head, set_ip, update, choose_ip}

-- The address that a cluster is reached at, and the cluster with it: the cluster's own, or, where it has
-- none, the first public address of its first master, with the first internal one as the cluster's.
abbrev pub IsReached : Cluster → Cluster → String → Type 0
IsReached before c ip =
    ((before.ip == "") ≡ false) × (c ≡ before) × (ip ≡ before.ip)
    ⊎ ((before.ip == "") ≡ true)
      × (m : Node) × (ms : List Node) × (inner : String) × (inners : List String) × (ips : List
          String)
      × (before.master_nodes ≡ m ∷ ms)
      × (m.internal_ip_address ≡ inner ∷ inners)
      × (m.public_ip_address ≡ ip ∷ ips)
      × (c ≡ record before { metadata = record before.metadata { ip = inner } })

pub list-cases : {A : Type 0} (xs : List A) → (xs ≡ []) ⊎ ((x : A) × (ys : List A) × (xs ≡ x ∷ ys))
list-cases [] = inl refl
list-cases (x ∷ ys) = inr (x, ys, refl)

module _ (p : ProviderBase) (o : Outside) where
  kept_cluster :
      (w : World) {m : Node} {ip : String} {w' : World}
      → (w.cluster.ip == "") ≡ false
      → choose_ip p o w ≡ (ok (m, ip), w')
      → w'.cluster ≡ w.cluster
  unfolding choose_ip
  kept_cluster w b h = ground arith

  given_cluster :
      (w : World) {m n : Node} {inner ip : String} {w' : World}
      → head w.cluster.master_nodes ≡ some n
      → first n.internal_ip_address ≡ some inner
      → (w.cluster.ip == "") ≡ true
      → choose_ip p o w ≡ (ok (m, ip), w')
      → w'.cluster ≡ set_ip inner w.cluster
  unfolding choose_ip update modify ◌>>=◌ lift continue
  given_cluster w e e' b h = ground arith

  choose_ip-public :
      (w : World) {m n : Node} {ms : List Node} {inner ip : String} {inners : List String}
      {w' : World}
      → w.cluster.master_nodes ≡ n ∷ ms
      → n.internal_ip_address ≡ inner ∷ inners
      → (w.cluster.ip == "") ≡ true
      → choose_ip p o w ≡ (ok (m, ip), w')
      → IsReached w.cluster w'.cluster ip
  unfolding choose_ip update modify ◌>>=◌ lift continue
  choose_ip-public w {n = n} {ms = ms} {inner = inner} {inners = inners} e e' b h =
      elim (list-cases n.public_ip_address) [
        | inl k ↦ ground arith
        | inr (x, ips, k) ↦
            let r = rw (e, e', b, k) at h in
            inr (
              b,
              n,
              ms,
              inner,
              inners,
              ips,
              e,
              e',
              k ∙ ap (λ y. y ∷ ips) (ap (λ y. y.1) (ok_injective (ap (λ y. y.0) r))),
              given_cluster w (ap head e) (ap first e') b h,
            )
      ]

  pub choose_ip-IsReached :
      (w : World) {m : Node} {ip : String} {w' : World}
      → choose_ip p o w ≡ (ok (m, ip), w')
      → IsReached w.cluster w'.cluster ip
  unfolding choose_ip update modify ◌>>=◌ lift continue
  choose_ip-IsReached w h = elim (list-cases w.cluster.master_nodes) [
    | inl e ↦ ground arith
    | inr (n, ms, e) ↦ elim (list-cases n.internal_ip_address) [
      | inl e' ↦ ground arith
      | inr (inner, inners, e') ↦ elim (Bool-cases (w.cluster.ip == "")) [
        | inl b ↦ choose_ip-public w e e' b h
        | inr b ↦
            let r = rw (e, e', b) at h in
            inl (b, kept_cluster w b h, sym (ap (λ y. y.1) (ok_injective (ap (λ y. y.0) r))))
      ]
    ]
  ]
