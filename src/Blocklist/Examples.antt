-- ===== src/Blocklist/Examples.antt =====
-- The theorems about src/blocklist.rs at a list of one domain, and at a hosts file.
use xanh_tab.Prelude.{
  ◌≡◌, ◌↔◌, refl, Bool, true, some, none, Option, String, List, [], ◌∷◌, ◌++◌, length, arith,
}
use xanh_tab.Text.{Text, codes, text_eq}
use xanh_tab.Fallible.{Fallible, done}
use xanh_tab.Blocklist.{FstSet, normalize_host, is_listed, parse_hosts_line, normalize_domain}
use xanh_tab.Blocklist.Matching.{SomeListed, is_listed_iff}
use xanh_tab.Blocklist.Compile.{absent, file, insert_all, read_inputs, validate_hosts_file}
use xanh_tab.Blocklist.Order.{
  increasing, member, insert_all-increasing, insert_all-member, member-append,
}
use xanh_tab.Blocklist.Compiled.{domains_of, read_inputs_are_the_domains, validated_file_compiles}
use xanh_tab.Blocklist.Files.{Crate, Files, Call, rename, output, merge_hosts_with_base}
use xanh_tab.Blocklist.Merged.{IsCrate, MergeOutcome, merge_is_atomic}

abbrev one_domain : FstSet
one_domain = record { contains = λ host. text_eq host (codes "ads.example"); len = 1 }

is_listed_iff_example :
    (is_listed (some one_domain) (codes "Cdn.Ads.example.") ≡ true)
    ↔ SomeListed one_domain.contains (normalize_host (codes "Cdn.Ads.example."))
is_listed_iff_example = is_listed_iff one_domain (codes "Cdn.Ads.example.")

-- The keys of an FST, for one that is its keys.
abbrev keys : Crate (List Text)
unfolding insert_all member
keys = record {
  build = some;
  stream = λ ks. ks;
  union = λ a b. insert_all (a ++ b) [];
  contains = λ ks e. member e ks;
  len = length;
}

keys-IsCrate : IsCrate keys
unfolding keys increasing member
keys-IsCrate = record {
  builds = λ ks h. (ks, refl, refl);
  union-increasing = λ a b. insert_all-increasing (a ++ b) [] refl;
  union-member = λ e a b. ground (arith, insert_all-member e (a ++ b) [], member-append e a b);
  len_lem = λ _. refl;
}

abbrev no_address : Text → Bool
unfolding text_eq
no_address s = text_eq s (codes "0.0.0.0")

abbrev hosts : List (Fallible Text)
hosts = done (codes "# ads") ∷ done (codes "0.0.0.0 B.example a.example b.example") ∷ []

abbrev domains : List Text
domains = codes "a.example" ∷ codes "b.example" ∷ []

hosts_compile : read_inputs no_address (absent ∷ file hosts ∷ []) [] ≡ done domains
unfolding read_inputs parse_hosts_line normalize_domain
hosts_compile = refl

hosts_are_valid : validate_hosts_file no_address (file hosts) ≡ done 2
unfolding validate_hosts_file normalize_domain
hosts_are_valid = refl

read_inputs_are_the_domains_example :
    (increasing domains ≡ true)
    × (member (codes "b.example") domains
        ≡ member (codes "b.example") (domains_of no_address (absent ∷ file hosts ∷ [])))
read_inputs_are_the_domains_example =
    read_inputs_are_the_domains no_address (codes "b.example") (absent ∷ file hosts ∷ []) domains
      hosts_compile

validated_file_compiles_example :
    (ks : List Text) × (read_inputs no_address (file hosts ∷ []) [] ≡ done ks) × (length ks ≡ 2)
validated_file_compiles_example = validated_file_compiles no_address hosts 2 hosts_are_valid

-- The last rename fails.
abbrev fault : Call → Option String
fault (rename output) = some "disk full"
fault _ = none

abbrev files : Files keys no_address fault
files output = some (some domains)
files _ = none

merge_is_atomic_example :
    MergeOutcome keys keys-IsCrate no_address fault
      (codes "b.example")
      (file hosts ∷ [])
      domains
      (merge_hosts_with_base keys no_address fault (done domains) (file hosts ∷ []) files)
      files
merge_is_atomic_example =
    merge_is_atomic keys keys-IsCrate no_address fault (codes "b.example") (file hosts ∷ []) domains
      files
