-- ===== src/HttpApi/RealIp/Spoofing.antt =====
-- What a client can make of its own address (server/internal/httpapi/realip.go).
use mathlib.Core.List.{reverse, reverse-append}
use kubby.Prelude.{
  ℕ, ◌≡◌, refl, ap, ◌⊎◌, inl, inr, true, false, some, List, [], ◌∷◌, ◌++◌, arith, ◌==◌, Bool-cases,
  Option-cases, Text,
}
use kubby.HttpApi.RealIp.{
  Net, Request, is_blank, split_commas, contains_ip, closest_untrusted, client_from_headers,
  peer_ip, no_networks, real_ip,
}

split_commas-cons :
    (s : Text) → (part : Text) × (parts : List Text) × (split_commas s ≡ part ∷ parts)
unfolding split_commas
split_commas-cons [] = ([], [], refl)
split_commas-cons (c ∷ s) = elim (Bool-cases (c == b',')) [
  | inl e ↦ ([], split_commas s, rw e refl)
  | inr e ↦ let (part, parts, h) = split_commas-cons s in (c ∷ part, parts, rw (e, h) refl)
]

-- A comma between two texts splits them.
split_commas-append : (s t : Text) → split_commas (s ++ b',' ∷ t) ≡ split_commas s ++ split_commas t
unfolding split_commas
split_commas-append [] t = refl
split_commas-append (c ∷ s) t = elim (Bool-cases (c == b',')) [
  | inl e ↦ rw e (ap (λ (parts : List Text). [] ∷ parts) (split_commas-append s t))
  | inr e ↦ let (part, parts, h) = split_commas-cons s in rw (e, split_commas-append s t, h) refl
]

not_blank : (s t : Text) (c : ℕ) → is_blank (s ++ c ∷ t) ≡ false
not_blank [] t c = refl
not_blank (d ∷ s) t c = refl

module _ {Ip Network : Type 0} (n : Net Ip Network) where
  closest_untrusted-append :
      (trusted : List Network) (hops more : List Text) {ip : Ip}
      → closest_untrusted n trusted hops ≡ some ip
      → closest_untrusted n trusted (hops ++ more) ≡ some ip
  unfolding closest_untrusted
  closest_untrusted-append trusted [] more h = cc
  closest_untrusted-append trusted (hop ∷ hops) more {ip} h =
      ground (arith, closest_untrusted-append trusted hops more {ip = ip})

  -- What stands before the part of X-Forwarded-For that the proxies appended does not matter: if
  -- that part holds an address that is no trusted proxy, the result is the same whatever a client
  -- wrote before it.
  pub client_from_headers-spoofed :
      (trusted : List Network) (r : Request) (spoofed appended : Text) {ip : Ip}
      → closest_untrusted n trusted (reverse (split_commas appended)) ≡ some ip
      → client_from_headers n (record r { x_forwarded_for = spoofed ++ b',' ∷ appended }) trusted
        ≡ some ip
  unfolding client_from_headers
  client_from_headers-spoofed trusted r spoofed appended {ip} h =
      rw
        (
          not_blank spoofed appended b',',
          split_commas-append spoofed appended,
          reverse-append (split_commas spoofed) (split_commas appended),
        )
        (closest_untrusted-append trusted (reverse (split_commas appended))
          (reverse (split_commas spoofed)) h)

  closest_untrusted-untrusted :
      (trusted : List Network) (hops : List Text) {ip : Ip}
      → closest_untrusted n trusted hops ≡ some ip
      → contains_ip n trusted ip ≡ false
  unfolding closest_untrusted
  closest_untrusted-untrusted trusted [] h = cc
  closest_untrusted-untrusted trusted (hop ∷ hops) {ip} h =
      ground (arith, closest_untrusted-untrusted trusted hops {ip = ip})

  client_from_headers-untrusted :
      (r : Request) (trusted : List Network) {ip : Ip}
      → client_from_headers n r trusted ≡ some ip
      → (r.x_forwarded_for ≡ []) ⊎ (contains_ip n trusted ip ≡ false)
  unfolding client_from_headers
  client_from_headers-untrusted r trusted {ip} h = elim (Bool-cases (is_blank r.x_forwarded_for)) [
    | inl e ↦ inl (blank r.x_forwarded_for e)
    | inr e ↦
        inr (
          closest_untrusted-untrusted trusted (reverse (split_commas r.x_forwarded_for))
            (rw e at h))
  ]
    where
      blank : (s : Text) → is_blank s ≡ true → s ≡ []
      blank [] e = refl
      blank (c ∷ s) e = cc

  -- The address of a request changes only if its peer is in a trusted network, and then to the
  -- one that the headers name; an address from X-Forwarded-For is in no trusted network.
  real_ip_sound :
      (networks : List Network) (r : Request)
      → (real_ip n networks r ≡ r)
        ⊎ ((peer : Ip) × (ip : Ip) × (peer_ip n r.remote_addr ≡ some peer)
            × (contains_ip n networks peer ≡ true)
            × (client_from_headers n r networks ≡ some ip)
            × ((r.x_forwarded_for ≡ []) ⊎ (contains_ip n networks ip ≡ false)))
  unfolding real_ip
  real_ip_sound networks r = elim (Bool-cases (no_networks n networks)) [
    | inl e ↦ inl (rw e refl)
    | inr e ↦ elim (Option-cases (peer_ip n r.remote_addr)) [
      | inl p ↦ inl (rw (e, p) refl)
      | inr (peer, p) ↦ elim (Bool-cases (contains_ip n networks peer)) [
        | inr t ↦ inl (rw (e, p, t) refl)
        | inl t ↦ elim (Option-cases (client_from_headers n r networks)) [
          | inl f ↦ inl (rw (e, p, t, f) refl)
          | inr (ip, f) ↦ inr (peer, ip, p, t, f, client_from_headers-untrusted r networks f)
        ]
      ]
    ]
  ]
