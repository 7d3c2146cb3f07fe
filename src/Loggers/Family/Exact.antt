-- ===== src/Loggers/Family/Exact.antt =====
-- The counters of names against the tables of hits.
use go_dns_collector.Base.{
  ℕ, ◌+◌, String, ◌≡◌, refl, ap, inl, inr, Bool, true, false, not, ◌&&◌, List, [], ◌∷◌, arith,
  str_eq, eq_iff, if◌then◌else◌, Bool-cases, length, Bytes, Key, string_key, bytes_key, is_some,
  find, adjust, find-adjust, hit, hits_of, hits_of-hit,
}
use go_dns_collector.Loggers.Top.{TopMap}
use go_dns_collector.Loggers.Family.{Family, names_of, hit_name, gauges, put_top, count_name}

length-adjust :
    {K : Type 0} ⦃key : Key K⦄ {V : Type 0} (k : K) (d : V) (f : V → V) (m : List (K × V))
    → length (adjust k d f m) ≡ (if is_some (find k m) then length m else length m + 1)
unfolding adjust find
length-adjust k d f [] = refl
length-adjust ⦃key⦄ k d f ((j, v) ∷ m) = ground (arith, length-adjust k d f m)

-- The counter of names is the size of the table, overall and in each stream, and the gauge shows the
-- top lists.
pub record IsExact {Top : Type 0} (top : TopMap Top) (top_n : ℕ) (f : Family Top) : Type 0 where
  pub uniq : f.counter_uniq ≡ length f.uniq
  pub stream : (id : String) → hits_of id f.counter ≡ length (names_of id f)
  pub gauge : f.gauge_top ≡ gauges top top_n f.top

names_of-hit_name :
    {Top : Type 0} (j id : String) (k : Bytes) (f : Family Top)
    → names_of j (hit_name id k f) ≡ (if str_eq id j then hit k (names_of id f) else names_of j f)
unfolding hit_name
names_of-hit_name j id k f =
    rw (find-adjust j id [] (hit k) f.by_stream)
      (elim (Bool-cases (str_eq id j)) [ inl e ↦ rw e refl | inr e ↦ rw e refl ])

length-hit :
    (k : Bytes) (m : List (Bytes × ℕ))
    → length (hit k m) ≡ (if is_some (find k m) then length m else length m + 1)
unfolding hit
length-hit k m = length-adjust k 0 (λ n. n + 1) m

hits_of-unless :
    (b : Bool) (j id : String) (m : List (String × ℕ))
    → hits_of j (if b then m else hit id m) ≡ (if not b && str_eq id j then 1 else 0) + hits_of j m
hits_of-unless true j id m = omega arith
hits_of-unless false j id m = hits_of-hit j id m

module _ {Top : Type 0} (top : TopMap Top) (top_n : ℕ) where
  stream_counted :
      (j id : String) (k : Bytes) (f : Family Top)
      → hits_of j f.counter ≡ length (names_of j f)
      → hits_of j (hit_name id k f).counter ≡ length (names_of j (hit_name id k f))
  unfolding hit_name
  stream_counted j id k f h =
      let b = is_some (find k (names_of id f)) in
      rw (hits_of-unless b j id f.counter) (
        rw (names_of-hit_name j id k f) (elim (Bool-cases (str_eq id j)) [
          | inl e ↦
              let same : length (names_of id f) ≡ length (names_of j f) =
                ap (λ i. length (names_of i f)) ((eq_iff id j).0 e) in
              rw e (ground (arith, same, length-hit k (names_of id f), h))
          | inr e ↦ rw e (ground (arith, h))
        ]))

  pub count-IsExact :
      (id : String) (k : Bytes) (n : ℕ) (f : Family Top)
      → IsExact top top_n f
      → IsExact top top_n (put_top top top_n id k n (hit_name id k f))
  unfolding put_top hit_name
  count-IsExact id k n f h = record {
    uniq = ground (arith, length-hit k f.uniq, h.uniq);
    stream = λ j. stream_counted j id k f (h.stream j);
    gauge = refl;
  }

  pub count_name-IsExact :
      (id : String) (k : Bytes) (f : Family Top)
      → IsExact top top_n f
      → IsExact top top_n (count_name top top_n id k f)
  unfolding count_name
  count_name-IsExact id k f h = count-IsExact id k (hits_of k (names_of id (hit_name id k f))) f h
