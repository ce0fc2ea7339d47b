-- ===== src/Ctrlplane/Routes/Counting.antt =====
-- What the statistics of routes.cc add up to.
use mixi_pgw.Prelude.{
  ℕ, ◌+◌, ◌%◌, ◌^◌, ◌<◌, ◌≡◌, refl, ap, true, false, ◌==◌, if◌then◌else◌, none, some, List, [], ◌∷◌,
  All, length, lookup, insert, arith, inl, inr, Bool-cases, Option-cases,
}
use mixi_pgw.Ctrlplane.Routes.{
  Routes, ProxyStat, PstatCount, bytes_request, bytes_response, count_request, count_response,
  count_delay, rejected_request, rejected_response, count_session, add, positive, new_stat,
  accumulate, stat_add, stat_count, count_from, add_count, selects,
}

-- What one entry adds to a counter; the sessions are counted once for each entry.
abbrev pub reading : PstatCount → ℕ → ProxyStat → ℕ
reading bytes_request size i = i.req_bytes
reading bytes_response size i = i.res_bytes
reading count_request size i = i.req_cnt
reading count_response size i = i.res_cnt
reading count_delay size i = i.delay
reading rejected_request size i = i.req_reject_cnt
reading rejected_response size i = i.res_reject_cnt
reading count_session size i = size

-- The sum of a reading over all entries, on exact numbers.
unfoldable sum : PstatCount → ℕ → List (ℕ × ProxyStat) → ℕ
sum e size [] = 0
sum e size ((k, s) ∷ rest) = reading e size s + sum e size rest

add_count-reading :
    (e : PstatCount) (s : ProxyStat) (c size : ℕ)
    → add_count e s c size ≡ (c + reading e size s) % 2 ^ 64
unfolding add_count add
add_count-reading bytes_request s c size = refl
add_count-reading bytes_response s c size = refl
add_count-reading count_request s c size = refl
add_count-reading count_response s c size = refl
add_count-reading count_delay s c size = refl
add_count-reading rejected_request s c size = refl
add_count-reading rejected_response s c size = refl
add_count-reading count_session s c size = refl

selects-all : (group k : ℕ) → selects 0xffffffff group k ≡ true
unfolding selects
selects-all group k = ground arith

count_from-sum :
    (e : PstatCount) (group size : ℕ) (xs : List (ℕ × ProxyStat)) (c : ℕ)
    → count_from e 0xffffffff group size xs c % 2 ^ 64 ≡ (c + sum e size xs) % 2 ^ 64
unfolding sum count_from
count_from-sum e group size [] c = ground arith
count_from-sum e group size ((k, s) ∷ rest) c =
    rw (selects-all group k, add_count-reading e s c size)
      (omega (arith, count_from-sum e group size rest ((c + reading e size s) % 2 ^ 64)))

-- Writing one entry of a map changes the sum by that entry alone.
sum-insert :
    (e : PstatCount) (size k : ℕ) (s : ProxyStat) (m : List (ℕ × ProxyStat))
    → lookup k m ≡ none
    → sum e size (insert k s m) ≡ sum e size m + reading e size s
unfolding sum lookup insert
sum-insert e size k s [] h = omega arith
sum-insert e size k s ((j, t) ∷ m) h = elim (Bool-cases (j == k)) [
  | inl y ↦ absurd (ground arith)
  | inr n ↦ rw n (omega (arith, sum-insert e size k s m (ground arith)))
]

sum-replace :
    (e : PstatCount) (size k : ℕ) (s t : ProxyStat) (m : List (ℕ × ProxyStat))
    → lookup k m ≡ some t
    → sum e size (insert k s m) + reading e size t ≡ sum e size m + reading e size s
unfolding sum lookup insert
sum-replace e size k s t [] h = absurd (ground arith)
sum-replace e size k s t ((j, u) ∷ m) h = elim (Bool-cases (j == k)) [
  | inl y ↦ let same : u ≡ t = ground arith in rw y (omega (arith, ap (reading e size) same))
  | inr n ↦ rw n (omega (arith, sum-replace e size k s t m (ground arith)))
]

-- What one call of StatAdd is to add to each counter, and one of StatReject.
abbrev pub added : PstatCount → ℕ → ℕ → ℕ → ℕ
added bytes_request req_bytes res_bytes delay = req_bytes
added bytes_response req_bytes res_bytes delay = res_bytes
added count_request req_bytes res_bytes delay = if req_bytes == 0 then 0 else 1
added count_response req_bytes res_bytes delay = if res_bytes == 0 then 0 else 1
added count_delay req_bytes res_bytes delay = delay
added _ req_bytes res_bytes delay = 0

abbrev pub IsTraffic : PstatCount → Type 0
IsTraffic count_session = ⊥
IsTraffic _ = Unit

reading-new :
    (e : PstatCount) (size now ip group req res delay : ℕ)
    → IsTraffic e
    → reading e size (new_stat now ip group (positive req) (positive res) delay req res)
      ≡ added e req res delay
unfolding new_stat positive
reading-new bytes_request size now ip group req res delay t = refl
reading-new bytes_response size now ip group req res delay t = refl
reading-new count_request size now ip group req res delay t = refl
reading-new count_response size now ip group req res delay t = refl
reading-new count_delay size now ip group req res delay t = refl
reading-new rejected_request size now ip group req res delay t = refl
reading-new rejected_response size now ip group req res delay t = refl
reading-new count_session size now ip group req res delay t = elim t [ ]

reading-accumulate :
    (e : PstatCount) (size now req res delay : ℕ) (s : ProxyStat)
    → IsTraffic e
    → reading e size (accumulate now req res delay s) % 2 ^ 64
      ≡ (reading e size s + added e req res delay) % 2 ^ 64
unfolding accumulate add positive
reading-accumulate bytes_request size now req res delay s t = omega arith
reading-accumulate bytes_response size now req res delay s t = omega arith
reading-accumulate count_request size now req res delay s t = omega arith
reading-accumulate count_response size now req res delay s t = omega arith
reading-accumulate count_delay size now req res delay s t = omega arith
reading-accumulate rejected_request size now req res delay s t = omega arith
reading-accumulate rejected_response size now req res delay s t = omega arith
reading-accumulate count_session size now req res delay s t = elim t [ ]

-- The total of a counter of traffic, over all peers and groups, grows by what StatAdd was given,
-- modulo 2 ^ 64.
stat_add-total :
    (e : PstatCount) (now ip group g req res delay : ℕ) (r : Routes)
    → IsTraffic e
    → stat_count e 0xffffffff g (stat_add now ip group req res delay r) % 2 ^ 64
      ≡ (stat_count e 0xffffffff g r + added e req res delay) % 2 ^ 64
unfolding stat_count stat_add count_from
stat_add-total e now ip group g req res delay r t =
    let size = length r.session % 2 ^ 64 in
    let before = count_from-sum e g size r.stats 0 in
    elim (Option-cases (lookup ip r.stats)) [
      | inl n ↦
          let s = new_stat now ip group (positive req) (positive res) delay req res in
          rw n (
            omega (
              arith,
              before,
              count_from-sum e g size (insert ip s r.stats) 0,
              sum-insert e size ip s r.stats n,
              reading-new e size now ip group req res delay t,
            ))
      | inr (u, f) ↦
          let s = accumulate now req res delay u in
          rw f (
            omega (
              arith,
              before,
              count_from-sum e g size (insert ip s r.stats) 0,
              sum-replace e size ip s u r.stats f,
              reading-accumulate e size now req res delay u t,
            ))
    ]

-- All keys are plain IPv4 addresses: what StatAdd and StatReject write.
abbrev pub IsPlain : List (ℕ × ProxyStat) → Type 0
IsPlain xs = All (λ x. x.0 < 2 ^ 32) xs

count_from-none :
    (e : PstatCount) (ip group size : ℕ) (xs : List (ℕ × ProxyStat)) (c : ℕ)
    → IsPlain xs
    → 0 < ip
    → ip < 0xffffffff
    → count_from e ip group size xs c ≡ c
unfolding count_from
count_from-none e ip group size [] c v p q = refl
count_from-none e ip group size ((k, s) ∷ rest) c (lt, v) p q =
    rw (unselected k lt) (count_from-none e ip group size rest c v p q)
  where
    unselected : (k : ℕ) → k < 2 ^ 32 → selects ip group k ≡ false
    unselected k lt = unfold selects in ground arith

insert-IsPlain :
    (k : ℕ) (s : ProxyStat) (m : List (ℕ × ProxyStat))
    → k < 2 ^ 32
    → IsPlain m
    → IsPlain (insert k s m)
unfolding insert
insert-IsPlain k s [] h v = (h, tt)
insert-IsPlain k s ((j, t) ∷ m) h (lt, v) = ground (arith, insert-IsPlain k s m h v)

-- The statistics are kept under the bare address, and StatCount looks for it in the upper word:
-- where all keys are bare addresses, a counter that is asked for one peer, other than 0 and the
-- address that stands for all, stays 0 whatever was added for that peer.
stat_add-unseen :
    (e : PstatCount) (now ip group g req res delay : ℕ) (r : Routes)
    → IsPlain r.stats
    → 0 < ip
    → ip < 0xffffffff
    → IsPlain (stat_add now ip group req res delay r).stats
      × (stat_count e ip g (stat_add now ip group req res delay r) ≡ 0)
unfolding stat_count stat_add
stat_add-unseen e now ip group g req res delay r v p q =
    let after = stat_add now ip group req res delay r in
    let kept : IsPlain after.stats = insert-IsPlain ip _ r.stats (omega (arith, q)) v in
    (kept, count_from-none e ip g (length r.session % 2 ^ 64) after.stats 0 kept p q)
