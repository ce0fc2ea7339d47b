-- ===== src/Dataplane/Gre/Wire.antt =====
-- What the writes of the distributor workers leave of a packet.
use mixi_pgw.Prelude.{
  ℕ, ◌+◌, ◌≤◌, ◌<◌, ◌≡◌, ap, ◌∙◌, [], ◌∷◌, ◌⊎◌, inl, inr, htonl, arith, Bool, true, false,
}
use mixi_pgw.Ctrlplane.Gtpc.{Octets, shift, memcpy}
use mixi_pgw.Ctrlplane.Gtpc.Memory.{memcpy_inside}
use mixi_pgw.Dataplane.Decap.{ipproto_gre}
use mixi_pgw.Dataplane.Mbuf.{checksum, wrapsum, Mbuf, mtod, write, octets_of, octet}
use mixi_pgw.Dataplane.Mbuf.Memory.{mtod-write, memcpy_head}
use mixi_pgw.Dataplane.Gre.{
  greo_ip, ingress_headers, put8, put16, put32, put_gre, swap_mac, put_checksum, Distributor,
}

-- The octet j is none of the `len` octets at `at`.
abbrev pub IsOutside : ℕ → ℕ → ℕ → Type 0
IsOutside at len j = (j < at) ⊎ (at + len ≤ j)

pub write_apart :
    (m : Mbuf) (at : ℕ) (src : Octets) (len j : ℕ)
    → IsOutside at len j
    → mtod (write m at src len) j ≡ mtod m j
unfolding write memcpy
write_apart m at src len j (inl h) = ground arith
write_apart m at src len j (inr h) = ground arith

pub write_inside :
    (m : Mbuf) (at : ℕ) (src : Octets) (len i : ℕ)
    → i < len
    → mtod (write m at src len) (at + i) ≡ src i
unfolding write
write_inside m at src len i h =
    let e : m.data_off + (at + i) ≡ m.data_off + at + i = omega arith in
    ap (memcpy m.buffer (m.data_off + at) src len) e
    ∙ memcpy_inside m.buffer (m.data_off + at) src len i h

pub write_head :
    (m : Mbuf) (src : Octets) (len i : ℕ) → i < len → mtod (write m 0 src len) i ≡ src i
write_head m src len i h = ap (λ f. f i) (mtod-write m 0 src len) ∙ memcpy_head (mtod m) src len i h

pub put8_apart : (at v : ℕ) (m : Mbuf) (j : ℕ) → IsOutside at 1 j → mtod (put8 at v m) j ≡ mtod m j
unfolding put8
put8_apart at v m j a = write_apart m at (octets_of (v ∷ [])) 1 j a

pub put8_inside : (at v : ℕ) (m : Mbuf) → mtod (put8 at v m) (at + 0) ≡ v
unfolding put8
put8_inside at v m = write_inside m at (octets_of (v ∷ [])) 1 0 (omega arith)

put16_apart : (at v : ℕ) (m : Mbuf) (j : ℕ) → IsOutside at 2 j → mtod (put16 at v m) j ≡ mtod m j
unfolding put16
put16_apart at v m j a = write_apart m at (octets_of (octet v 0 ∷ octet v 1 ∷ [])) 2 j a

put32_apart : (at v : ℕ) (m : Mbuf) (j : ℕ) → IsOutside at 4 j → mtod (put32 at v m) j ≡ mtod m j
unfolding put32
put32_apart at v m j a =
    write_apart m at (octets_of (octet v 0 ∷ octet v 1 ∷ octet v 2 ∷ octet v 3 ∷ [])) 4 j a

put_gre_apart :
    (greo : Octets) (m : Mbuf) (j : ℕ) → IsOutside 34 16 j → mtod (put_gre greo m) j ≡ mtod m j
unfolding put_gre
put_gre_apart greo m j (inl h) =
    write_apart (write m 34 (λ _. 0x01) 12) 46 greo 4 j (inl (omega arith))
    ∙ write_apart m 34 (λ _. 0x01) 12 j (inl h)
put_gre_apart greo m j (inr h) =
    write_apart (write m 34 (λ _. 0x01) 12) 46 greo 4 j (inr h)
    ∙ write_apart m 34 (λ _. 0x01) 12 j (inr (omega arith))

put_checksum_apart :
    (len : ℕ) (m : Mbuf) (j : ℕ) → IsOutside 24 2 j → mtod (put_checksum len m) j ≡ mtod m j
unfolding put_checksum
put_checksum_apart len m j a =
    put16_apart 24 (wrapsum (checksum (shift (mtod (put16 24 0 m)) 14) len 0)) (put16 24 0 m) j a
    ∙ put16_apart 24 0 m j a

-- the packet with the GRE addresses, and the packet before its checksum
abbrev addressed : Distributor → Mbuf → Mbuf
addressed w m = put32 30 (htonl w.greipv4) (put32 26 (htonl w.gresrcipv4) (put8 14 0x48 m))

abbrev capsule : Distributor → Mbuf → Mbuf
capsule w m = put_gre greo_ip (put16 24 0 (put8 23 ipproto_gre (addressed w m)))

within : (at len j : ℕ) → 14 ≤ at → at + len ≤ 50 → IsOutside 14 36 j → IsOutside at len j
within at len j lo hi (inl h) = inl (omega arith)
within at len j lo hi (inr h) = inr (omega arith)

-- An octet out of the outer headers stays.
pub ingress_headers_apart :
    (use_gre : Bool) (w : Distributor) (m : Mbuf) (j : ℕ)
    → IsOutside 14 36 j
    → mtod (ingress_headers use_gre w m) j ≡ mtod m j
unfolding ingress_headers
ingress_headers_apart true w m j a =
    put_checksum_apart 32 (capsule w m) j (within 24 2 j (omega arith) (omega arith) a)
    ∙ put_gre_apart greo_ip (put16 24 0 (put8 23 ipproto_gre (addressed w m))) j
        (within 34 16 j (omega arith) (omega arith) a)
    ∙ put16_apart 24 0 (put8 23 ipproto_gre (addressed w m)) j
        (within 24 2 j (omega arith) (omega arith) a)
    ∙ put8_apart 23 ipproto_gre (addressed w m) j (within 23 1 j (omega arith) (omega arith) a)
    ∙ put32_apart 30 (htonl w.greipv4) (put32 26 (htonl w.gresrcipv4) (put8 14 0x48 m)) j
        (within 30 4 j (omega arith) (omega arith) a)
    ∙ put32_apart 26 (htonl w.gresrcipv4) (put8 14 0x48 m) j
        (within 26 4 j (omega arith) (omega arith) a)
    ∙ put8_apart 14 0x48 m j (within 14 1 j (omega arith) (omega arith) a)
ingress_headers_apart false w m j a =
    put_checksum_apart 20 (put32 30 (htonl w.greipv4) (put32 26 (htonl w.gresrcipv4) m)) j
      (within 24 2 j (omega arith) (omega arith) a)
    ∙ put32_apart 30 (htonl w.greipv4) (put32 26 (htonl w.gresrcipv4) m) j
        (within 30 4 j (omega arith) (omega arith) a)
    ∙ put32_apart 26 (htonl w.gresrcipv4) m j (within 26 4 j (omega arith) (omega arith) a)

-- With GRE the header says GRE and 32 octets.
pub gre_proto : (w : Distributor) (m : Mbuf) → mtod (ingress_headers true w m) 23 ≡ ipproto_gre
unfolding ingress_headers
gre_proto w m =
    put_checksum_apart 32 (capsule w m) 23 (inl (omega arith))
    ∙ put_gre_apart greo_ip (put16 24 0 (put8 23 ipproto_gre (addressed w m))) 23
        (inl (omega arith))
    ∙ put16_apart 24 0 (put8 23 ipproto_gre (addressed w m)) 23 (inl (omega arith))
    ∙ put8_inside 23 ipproto_gre (addressed w m)

pub gre_version : (w : Distributor) (m : Mbuf) → mtod (ingress_headers true w m) 14 ≡ 0x48
unfolding ingress_headers
gre_version w m =
    put_checksum_apart 32 (capsule w m) 14 (inl (omega arith))
    ∙ put_gre_apart greo_ip (put16 24 0 (put8 23 ipproto_gre (addressed w m))) 14
        (inl (omega arith))
    ∙ put16_apart 24 0 (put8 23 ipproto_gre (addressed w m)) 14 (inl (omega arith))
    ∙ put8_apart 23 ipproto_gre (addressed w m) 14 (inl (omega arith))
    ∙ put32_apart 30 (htonl w.greipv4) (put32 26 (htonl w.gresrcipv4) (put8 14 0x48 m)) 14
        (inl (omega arith))
    ∙ put32_apart 26 (htonl w.gresrcipv4) (put8 14 0x48 m) 14 (inl (omega arith))
    ∙ put8_inside 14 0x48 m

-- Without GRE the version and the protocol stay.
pub udp_proto : (w : Distributor) (m : Mbuf) → mtod (ingress_headers false w m) 23 ≡ mtod m 23
unfolding ingress_headers
udp_proto w m =
    put_checksum_apart 20 (put32 30 (htonl w.greipv4) (put32 26 (htonl w.gresrcipv4) m)) 23
      (inl (omega arith))
    ∙ put32_apart 30 (htonl w.greipv4) (put32 26 (htonl w.gresrcipv4) m) 23 (inl (omega arith))
    ∙ put32_apart 26 (htonl w.gresrcipv4) m 23 (inl (omega arith))

pub udp_version : (w : Distributor) (m : Mbuf) → mtod (ingress_headers false w m) 14 ≡ mtod m 14
unfolding ingress_headers
udp_version w m =
    put_checksum_apart 20 (put32 30 (htonl w.greipv4) (put32 26 (htonl w.gresrcipv4) m)) 14
      (inl (omega arith))
    ∙ put32_apart 30 (htonl w.greipv4) (put32 26 (htonl w.gresrcipv4) m) 14 (inl (omega arith))
    ∙ put32_apart 26 (htonl w.gresrcipv4) m 14 (inl (omega arith))

-- swap_mac exchanges the octets 0 to 5 and 6 to 11.
pub swap_mac_apart : (m : Mbuf) (j : ℕ) → 12 ≤ j → mtod (swap_mac m) j ≡ mtod m j
unfolding swap_mac
swap_mac_apart m j h =
    write_apart (write m 0 (shift (mtod m) 6) 6) 6 (mtod m) 6 j (inr h)
    ∙ write_apart m 0 (shift (mtod m) 6) 6 j (inr (omega arith))

pub swap_mac_second : (m : Mbuf) (i : ℕ) → i < 6 → mtod (swap_mac m) (6 + i) ≡ mtod m i
unfolding swap_mac
swap_mac_second m i h = write_inside (write m 0 (shift (mtod m) 6) 6) 6 (mtod m) 6 i h

pub swap_mac_first : (m : Mbuf) (i : ℕ) → i < 6 → mtod (swap_mac m) i ≡ mtod m (6 + i)
unfolding swap_mac
swap_mac_first m i h =
    write_apart (write m 0 (shift (mtod m) 6) 6) 6 (mtod m) 6 i (inl h)
    ∙ write_head m (shift (mtod m) 6) 6 i h
