-- ===== src/Schedule/Examples.antt =====
-- history.go: a history of two observations.
use gotst.Prelude.{ℕ, [], ◌∷◌, List, none, Text, text}
use gotst.History.{Key, Observation, pass}

abbrev key : Key
key = record {
  package_path = text "p";
  test = text "TestA";
  goos = text "linux";
  goarch = text "amd64";
  tags = [];
  args = [];
}

abbrev observed : Text → ℕ → Observation
observed id at = record {
  id = id;
  key = key;
  observed_at = at;
  outcome = pass;
  duration = 5;
  attempts = 1;
  peak_rss_bytes = 0;
  dependencies = none;
}

abbrev both : List Observation
both = observed (text "a") 3 ∷ observed (text "b") 7 ∷ []
