-- ===== src/Loggers/Family.antt =====
-- What `Record` of loggers/prometheus.go does alike for requesters, domains, suffixes and so on.
pub mod Exact
use go_dns_collector.Base.{
  ℕ, ◌+◌, String, List, [], map, if◌then◌else◌, Bytes, string_key, bytes_key, value_or, is_some,
  find, adjust, hit, hits_of,
}
use go_dns_collector.Loggers.Top.{TopMap}

-- What Record keeps alike for requesters, domains, suffixes and so on: the hits by name, the counter of
-- names, the hits by stream and name, the counter of names by stream, the top list of each stream,
-- and the gauge over the top lists.
pub record Family (Top : Type 0) : Type 0 where
  pub uniq : List (Bytes × ℕ)
  pub counter_uniq : ℕ
  pub by_stream : List (String × List (Bytes × ℕ))
  pub counter : List (String × ℕ)
  pub top : List (String × Top)
  pub gauge_top : List (String × List (Bytes × ℕ))

abbrev pub names_of : {Top : Type 0} → String → Family Top → List (Bytes × ℕ)
names_of id f = value_or [] (find id f.by_stream)

-- A hit of a name in a stream; a new name moves the counters.
unfoldable pub hit_name : {Top : Type 0} → String → Bytes → Family Top → Family Top
hit_name id k f = record f {
  uniq = hit k f.uniq;
  counter_uniq = if is_some (find k f.uniq) then f.counter_uniq else f.counter_uniq + 1;
  by_stream = adjust id [] (hit k) f.by_stream;
  counter = if is_some (find k (names_of id f)) then f.counter else hit id f.counter;
}

module _ {Top : Type 0} (top : TopMap Top) (top_n : ℕ) where
  abbrev pub no_names : Family Top
  no_names = record {
    uniq = [];
    counter_uniq = 0;
    by_stream = [];
    counter = [];
    top = [];
    gauge_top = [];
  }

  -- gauge.Reset(), then Set for each entry of each top list.
  abbrev pub gauges : List (String × Top) → List (String × List (Bytes × ℕ))
  gauges tops = map (λ (id, t). (id, top.get t)) tops

  -- The top list of a stream records a name with its hits, and the gauge is set anew.
  unfoldable pub put_top : String → Bytes → ℕ → Family Top → Family Top
  put_top id k n f =
      let tops = adjust id (top.new_top_map top_n) (top.put k n) f.top in
      record f { top = tops; gauge_top = gauges tops }

  unfoldable pub count_name : String → Bytes → Family Top → Family Top
  unfolding hit_name put_top
  count_name id k f = let g = hit_name id k f in put_top id k (hits_of k (names_of id g)) g
