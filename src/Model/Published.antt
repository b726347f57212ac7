-- ===== src/Model/Published.antt =====
-- The ports that internal/model/model.go reports as published.
use tidewaiter.Common.{
  ◌≡◌, refl, ◌≢◌, ◌↔◌, ◌⊎◌, inl, inr, true, List, [], ◌∷◌, All, Any, Elem, arith,
}
use tidewaiter.Model.{
  ContainerSpec, PortBinding, PublishedPort, seen_key, same_key, published_from, published,
}

-- One port on the host, whatever address and container port it leads to.
abbrev pub SameKey : PublishedPort → PublishedPort → Type 0
SameKey p q = (p.protocol ≡ q.protocol) × (p.host_port ≡ q.host_port)

-- No two ports of the list are one on the host.
abbrev pub IsDistinct : List PublishedPort → Type 0
IsDistinct [] = Unit
IsDistinct (p ∷ ps) = All (λ q. ¬ SameKey p q) ps × IsDistinct ps

same_key_iff : (p q : PublishedPort) → (same_key p q ≡ true) ↔ SameKey p q
same_key_iff p q = ground arith

seen_key_iff :
    (p : PublishedPort) (qs : List PublishedPort)
    → (seen_key p qs ≡ true) ↔ Any (λ q. SameKey q p) qs
seen_key_iff p [] = (λ e. cc, λ h. elim h [ ])
seen_key_iff p (q ∷ qs) = ground (arith, same_key_iff q p, seen_key_iff p qs)

-- What is still found has a host port.
published_from-picked :
    (bs : List PortBinding) (found : List PublishedPort)
    → All (λ p. p.host_port ≢ 0) (published_from bs found)
unfolding published_from
published_from-picked [] found = tt
published_from-picked (b ∷ bs) found =
    ground (arith, published_from-picked bs found, published_from-picked bs (b.port ∷ found))

seen_key_congr :
    (p q : PublishedPort) (found : List PublishedPort)
    → SameKey p q
    → seen_key p found ≡ seen_key q found
seen_key_congr p q [] h = refl
seen_key_congr p q (r ∷ rs) h = ground (arith, seen_key_congr p q rs h)

-- No port still to be found is one already found.
published_from-fresh :
    (bs : List PortBinding) (found : List PublishedPort) (q : PublishedPort)
    → seen_key q found ≡ true
    → All (λ p. ¬ SameKey q p) (published_from bs found)
unfolding published_from
published_from-fresh [] found q h = tt
published_from-fresh (b ∷ bs) found q h =
    let later : seen_key q (b.port ∷ found) ≡ true = ground arith in
    ground (
      arith,
      published_from-fresh bs found q h,
      published_from-fresh bs (b.port ∷ found) q later,
      seen_key_congr q b.port found,
    )

published_from-IsDistinct :
    (bs : List PortBinding) (found : List PublishedPort) → IsDistinct (published_from bs found)
unfolding published_from
published_from-IsDistinct [] found = tt
published_from-IsDistinct (b ∷ bs) found =
    let self : seen_key b.port (b.port ∷ found) ≡ true = ground arith in
    ground (
      arith,
      published_from-IsDistinct bs found,
      published_from-IsDistinct bs (b.port ∷ found),
      published_from-fresh bs (b.port ∷ found) b.port self,
    )

-- Every binding with a host port is found, now or before.
published_from_complete :
    (bs : List PortBinding) (found : List PublishedPort) (c : PortBinding)
    → Elem c bs
    → c.port.host_port ≢ 0
    → (seen_key c.port found ≡ true) ⊎ Any (λ p. SameKey p c.port) (published_from bs found)
unfolding published_from
published_from_complete [] found c h nz = elim h [ ]
published_from_complete (b ∷ bs) found c (inl e) nz = rw (← e) (ground arith)
published_from_complete (b ∷ bs) found c (inr m) nz = ground (
  arith,
  published_from_complete bs found c m nz,
  published_from_complete bs (b.port ∷ found) c m nz,
  same_key_iff b.port c.port,
)

-- What is published is what activity and health look at: no port 0, which Docker picks and which no
-- probe could watch; no port of the host twice, whatever addresses it is bound on; and the port of
-- every binding that has a host port.
pub published_lem :
    (spec : ContainerSpec)
    → All (λ p. p.host_port ≢ 0) (published spec)
      × IsDistinct (published spec)
      × ((b : PortBinding)
          → Elem b spec.bindings
          → b.port.host_port ≢ 0
          → Any (λ p. SameKey p b.port) (published spec))
unfolding published
published_lem spec = (
  published_from-picked spec.bindings [],
  published_from-IsDistinct spec.bindings [],
  λ b m nz. ground (arith, published_from_complete spec.bindings [] b m nz),
)
