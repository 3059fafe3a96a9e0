-- ===== src/Cluster/Types/Keys.antt =====
-- Each kind is found again by what names it (server/internal/cluster/registry.go).
use kubby.Prelude.{◌≡◌, some, arith, List, [], ◌∷◌, inl, inr, All, In}
use kubby.Cluster.Types.{ResourceType, key, builtin_types, lookup_kind, lookup_type}

abbrev IsFound : ResourceType → Type 0
IsFound t = (lookup_type (key t) ≡ some t) × (lookup_kind t.group t.version t.kind ≡ some t)

All-IsFound : All IsFound builtin_types
unfolding lookup_type lookup_kind
All-IsFound = ground arith

All-In :
    (P : ResourceType → Type 0) (ts : List ResourceType) (t : ResourceType)
    → All P ts
    → In t ts
    → P t
All-In P (x ∷ ts) t h (inl e) = rw e h.0
All-In P (x ∷ ts) t h (inr k) = All-In P ts t h.1 k
All-In P [] t h k = absurd k

-- A kind that Kubby knows is found under the key that stands for it in a URL, and under the apiVersion
-- and kind that a manifest gives for it: no two kinds share either.
pub lookup_type-key :
    (t : ResourceType)
    → In t builtin_types
    → (lookup_type (key t) ≡ some t) × (lookup_kind t.group t.version t.kind ≡ some t)
lookup_type-key t k = All-In IsFound builtin_types t All-IsFound k
