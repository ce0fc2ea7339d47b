-- ===== src/Dataplane/Mbuf/Headers.antt =====
-- The octets of the headers, and reading values back from them.
use mixi_pgw.Prelude.{
  ℕ, zero, suc, ◌+◌, ◌*◌, ◌%◌, ◌^◌, ◌≤◌, ◌<◌, ◌≡◌, refl, ◌⊎◌, inl, inr, List, [], ◌∷◌, ◌++◌, length,
  htons, arith,
}
use mixi_pgw.Dataplane.Mbuf.{Ipv4Hdr, octet, octets_of, ipv4_octets, wrapsum}

-- Reading a value back from the octets it was written in.
pub le16-octet : (v : ℕ) → octet v 0 + octet v 1 * 0x100 ≡ v % 2 ^ 16
le16-octet v = omega arith

pub le32-octet :
    (v : ℕ) → octet v 0 + octet v 1 * 0x100 + (octet v 2 + octet v 3 * 0x100) * 0x10000 ≡ v % 2 ^ 32
le32-octet v = omega arith

pub wrapsum-lt : (s : ℕ) → wrapsum s < 2 ^ 16
unfolding wrapsum htons
wrapsum-lt s = omega arith

-- Two octets of a list in the place of two others.
patched :
    (xs zs : List ℕ) (a b c d k : ℕ)
    → (k < length xs) ⊎ (2 + length xs ≤ k)
    → octets_of (xs ++ a ∷ b ∷ zs) k ≡ octets_of (xs ++ c ∷ d ∷ zs) k
patched [] zs a b c d zero (inl h) = absurd (omega arith)
patched [] zs a b c d zero (inr h) = absurd (omega arith)
patched [] zs a b c d (suc zero) (inl h) = absurd (omega arith)
patched [] zs a b c d (suc zero) (inr h) = absurd (omega arith)
patched [] zs a b c d (suc (suc k)) side = refl
patched (x ∷ xs) zs a b c d zero side = refl
patched (x ∷ xs) zs a b c d (suc k) (inl h) = patched xs zs a b c d k (inl (omega arith))
patched (x ∷ xs) zs a b c d (suc k) (inr h) = patched xs zs a b c d k (inr (omega arith))

-- The checksum is the octets 10 and 11 of a header and no others.
pub ipv4_octets_apart :
    (h : Ipv4Hdr) (c k : ℕ)
    → (k < 10) ⊎ (12 ≤ k)
    → ipv4_octets (record h { hdr_checksum = c }) k ≡ ipv4_octets h k
unfolding ipv4_octets
ipv4_octets_apart h c k side =
    patched
      (h.version_ihl
        ∷ h.type_of_service
        ∷ octet h.total_length 0
        ∷ octet h.total_length 1
        ∷ octet h.packet_id 0
        ∷ octet h.packet_id 1
        ∷ octet h.fragment_offset 0
        ∷ octet h.fragment_offset 1
        ∷ h.time_to_live
        ∷ h.next_proto_id
        ∷ [])
      (octet h.src_addr 0
        ∷ octet h.src_addr 1
        ∷ octet h.src_addr 2
        ∷ octet h.src_addr 3
        ∷ octet h.dst_addr 0
        ∷ octet h.dst_addr 1
        ∷ octet h.dst_addr 2
        ∷ octet h.dst_addr 3
        ∷ [])
      (octet c 0) (octet c 1) (octet h.hdr_checksum 0) (octet h.hdr_checksum 1) k side
