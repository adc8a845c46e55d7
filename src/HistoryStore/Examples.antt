-- ===== src/HistoryStore/Examples.antt =====
-- history.go: tests and examples of the stores.
use gotst.Schedule.{newer}
use gotst.Go.Strings.{has_prefix}
use gotst.Go.Sort.{sort_by, insert_sorted}
use gotst.Go.Paths.{extension}
use gotst.Prelude.{
  erase, ap, text_eq, text_beq, insert, contains, ℕ, ◌≡◌, refl, false, [], ◌∷◌, ◌++◌, List, Option,
  none, some, Text, text, lookup,
}
use gotst.History.{Key, Observation, TestHistory, pass}
use gotst.Files.Memory.{Memory, memory_os, memory-Laws}
use gotst.HistoryStore.Portable.{relative_within}
use gotst.HistoryStore.Disk.{
  file_before, read_history, observation_before, lookup_keys, key_dir, gather, decode_files,
  Listing, entries, FileObservation, disk_lookup, pruned, prune, remove_files, DirEntry,
}
use gotst.HistoryStore.Client.{LookupResponse, http_lookup}
use gotst.HistoryStore.DiskLaws.{Promised, disk_lookup-Promised}
use gotst.HistoryStore.PruneLaws.{Prunes, prune-Prunes}
use gotst.HistoryStore.ClientLaws.{http_lookup-Promised}

abbrev test_key : Key
test_key = record {
  package_path = text "p";
  test = text "T";
  goos = text "linux";
  goarch = text "amd64";
  tags = [];
  args = [];
}

abbrev package_id : Key → Text
package_id key = text "id" ++ key.package_path

-- The observation at a time, which a file holds as that number.
abbrev observed : ℕ → Observation
observed t = record {
  id = t ∷ [];
  key = test_key;
  observed_at = t;
  outcome = pass;
  duration = 5;
  attempts = 1;
  peak_rss_bytes = 0;
  dependencies = none;
}

abbrev number_of : Observation → Option Text
number_of o = some (o.observed_at ∷ [])

abbrev observed_in : Text → Option Observation
observed_in (t ∷ s) = some (observed t)
observed_in [] = none

abbrev two_files : Memory
two_files = (text "/d/id/idp/a.json", 3 ∷ []) ∷ (text "/d/id/idp/b.json", 7 ∷ []) ∷ []

abbrev two_entries : List DirEntry
two_entries =
    record { name = text "a.json"; is_dir = false }
    ∷ record { name = text "b.json"; is_dir = false }
    ∷ record { name = text "c.tmp"; is_dir = false }
    ∷ []

abbrev list_two : Memory → Text → Listing
list_two d at = entries two_entries

abbrev history_of : List Observation → TestHistory
history_of os = record { version = 1; key = test_key; observations = os }

looks_up_newest :
    disk_lookup memory_os list_two package_id
      (λ s. s)
      number_of
      observed_in
      (text "/d")
      (λ k. false)
      1
      two_files
      (test_key ∷ [])
    ≡ some ((text "idp", history_of (observed 7 ∷ [])) ∷ [])
unfolding disk_lookup lookup_keys read_history decode_files text_beq extension lookup key_dir gather
    contains insert sort_by insert_sorted observation_before newer
looks_up_newest = refl

found_one :
    lookup (text "idp") ((text "idp", history_of (observed 7 ∷ [])) ∷ [])
    ≡ some (history_of (observed 7 ∷ []))
unfolding lookup text_beq
found_one = refl

disk_lookup-Promised_example : Promised package_id 1 (text "idp") (history_of (observed 7 ∷ []))
disk_lookup-Promised_example =
    disk_lookup-Promised memory_os list_two package_id (λ s. s) number_of observed_in (text "/d")
      (λ k. false) 1 two_files (test_key ∷ []) ((text "idp", history_of (observed 7 ∷ [])) ∷ [])
      (text "idp") (history_of (observed 7 ∷ [])) looks_up_newest found_one

abbrev service_response : LookupResponse
service_response = record {
  version = 1;
  histories = none ∷ some (history_of (observed 3 ∷ observed 7 ∷ [])) ∷ [];
}

service_sorted :
    http_lookup package_id (test_key ∷ []) 1 (some service_response)
    ≡ some ((text "idp", history_of (observed 7 ∷ [])) ∷ [])
unfolding http_lookup contains text_beq insert insert_sorted observation_before newer
service_sorted = refl

http_lookup-Promised_example : Promised package_id 1 (text "idp") (history_of (observed 7 ∷ []))
http_lookup-Promised_example =
    http_lookup-Promised package_id (test_key ∷ []) 1 (some service_response)
      ((text "idp", history_of (observed 7 ∷ [])) ∷ []) (text "idp") (history_of (observed 7 ∷ []))
      service_sorted found_one

abbrev file_list : List FileObservation
file_list =
    record { path = text "/d/id/idp/a.json"; obs = observed 3 }
    ∷ record { path = text "/d/id/idp/b.json"; obs = observed 7 }
    ∷ []

abbrev prune_two : Memory × Option (Unit {0})
prune_two =
    prune memory_os list_two package_id (λ s. s) number_of observed_in (text "/d") (text "idp") 1
      two_files

prunes_oldest : prune_two ≡ ((text "/d/id/idp/b.json", 7 ∷ []) ∷ [], some tt)
unfolding prune pruned remove_files decode_files text_beq extension lookup erase key_dir sort_by
    insert_sorted newer file_before
prunes_oldest = refl

decodes_two :
    decode_files memory_os list_two package_id
      (λ s. s)
      number_of
      observed_in
      (text "/d")
      two_files
      (key_dir memory_os list_two package_id
        (λ s. s)
        number_of
        observed_in
        (text "/d")
        (text "idp"))
      two_entries
    ≡ some file_list
unfolding decode_files text_beq extension lookup key_dir
decodes_two = refl

prune-Prunes_example : Prunes memory_os 1 file_list two_files prune_two.0
prune-Prunes_example =
    prune-Prunes memory_os memory-Laws list_two package_id (λ s. s) number_of observed_in
      (text "/d") (text "idp") 1 two_files two_entries file_list refl decodes_two
      (ap (λ r. r.1) prunes_oldest)

inside :
    relative_within (λ s. s) (λ p. p) (λ root path. some (text "a/b")) (text "/r/a/b") (text "/r")
    ≡ some (text "a/b")
unfolding relative_within text_beq has_prefix
inside = refl

outside :
    relative_within (λ s. s) (λ p. p) (λ root path. some (text "../b")) (text "/b") (text "/r")
    ≡ none
unfolding relative_within text_beq has_prefix
outside = refl
