-- ===== src/Cleansing/Tests.antt =====
-- Articles, a near duplicate, a replay and two sweeps, and the witnesses.
use Prim.Native.String.{String}
use stock_prediction.Base.{
  ℕ, ◌+◌, ◌≡◌, refl, Option, none, some, List, [], ◌∷◌, map, filter_by, arith,
}
use stock_prediction.Base.Int.{ℤ, pos}
use stock_prediction.Number.Fixed.{fixed, fixed-IsOrdered}
use stock_prediction.Schema.{occurrence}
use stock_prediction.Cleansing.Clustering.{
  ClusterCandidate, ClusterState, decide_assignment, decision_for,
}
use stock_prediction.Cleansing.Clustering.Best.{first, ranking, passes, decide_assignment-ranking}
use stock_prediction.Cleansing.Merge.{NewIds}
use stock_prediction.Cleansing.Store.{Tables}
use stock_prediction.Cleansing.Store.Sound.{IsSound}
use stock_prediction.Cleansing.Pipeline.{Settings, Article, Step, article, sweep, run}
use stock_prediction.Cleansing.Pipeline.OneEvent.{run-IsSound}

abbrev candidate : ℕ → String → ℕ → ClusterCandidate ℤ
candidate id event_type similarity = record {
  cluster_id = id;
  event_type = event_type;
  similarity = pos similarity;
}

abbrev candidates : List (ClusterCandidate ℤ)
candidates =
    candidate 1 "SANCTIONS" 850_000
    ∷ candidate 2 "RATE_DECISION" 990_000
    ∷ candidate 3 "SANCTIONS" 900_000
    ∷ candidate 4 "SANCTIONS" 900_000
    ∷ []

decide_assignment-ranking_example :
    decide_assignment "SANCTIONS" (pos 800_000) candidates
    ≡ decision_for (first (ranking (filter_by (passes "SANCTIONS" (pos 800_000)) candidates)))
decide_assignment-ranking_example =
    decide_assignment-ranking fixed-IsOrdered "SANCTIONS" (pos 800_000) candidates

abbrev settings : Settings ℤ
settings = record {
  dedup_window_hours = 48;
  simhash_max_distance = 3;
  similarity_threshold = pos 800_000;
  quiet_period_minutes = 30;
  max_lifetime_hours = 24;
}

abbrev news : ℕ → Option String → ℕ → Article ℤ
news id actor hash = record {
  facts = record {
    article_id = id;
    source_id = "WIRE";
    canonical_url = "https://example.com";
    title = "Sanctions";
    published_at = 1_000_000 + id;
    correlation_id = id;
  };
  token_hashes = hash ∷ [];
  vector = some (pos 1_000_000 ∷ []);
  action = some (record {
    article_id = 0;
    actor = actor;
    action_lemma = some "impose";
    object = none;
    event_type = "SANCTIONS";
    affected_asset_ids = "VOLVO" ∷ [];
    polarity = occurrence;
    context_tags = [];
  });
}

abbrev new_ids : ℕ → NewIds
new_ids id = record { message_id = 100 + id; event_id = 200 + id; correlation_id = 300 + id }

-- Two articles of one cluster, a near duplicate, a replay, and a cluster whose sources disagree.
abbrev steps : List (Step ℤ)
steps =
    article 1_000_000 (news 1 (some "EU") 255)
    ∷ article 1_000_010 (news 2 (some "EU") 254)
    ∷ article 1_000_020 (news 3 (some "EU") 65_280)
    ∷ article 1_000_030 (news 1 (some "EU") 255)
    ∷ sweep 1_003_000 new_ids (λ id. none)
    ∷ article 1_004_000 (news 4 (some "EU") 4_080)
    ∷ article 1_004_010 (news 5 (some "US") 1_044_480)
    ∷ sweep 1_008_000 new_ids (λ id. none)
    ∷ []

abbrev empty : Tables ℤ
empty = record {
  fingerprints = [];
  embeddings = [];
  actions = [];
  clusters = [];
  members = [];
  events = [];
  outbox = [];
  next = 0;
}

abbrev after : Tables ℤ
after = run (λ a b. pos 1_000_000) settings (λ event_type articles. []) steps empty

abbrev sent : List ℕ
sent = map (λ e. e.cluster_id) after.outbox

abbrev states : List (ℕ × ClusterState)
states = map (λ c. (c.article_count, c.state)) after.clusters

empty-IsSound : IsSound empty
empty-IsSound = record {
  unused = λ id h. refl;
  one_cluster = λ id. ground arith;
  one_fingerprint = λ id. ground arith;
  placed = λ id. ground arith;
  counted = tt;
  settled = tt;
  sent = λ id. ground arith;
}

run-IsSound_example : IsSound after
run-IsSound_example =
    run-IsSound (λ a b. pos 1_000_000) settings (λ event_type articles. []) steps empty
      empty-IsSound
