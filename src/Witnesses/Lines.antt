-- ===== src/Witnesses/Lines.antt =====
-- Words of a cache line at concrete granularities.
use data_race_test.Prelude.{inl, inr, refl, false, some, [], arith, pos, ◌==◌}
use data_race_test.Shadow.{ShadowValue}
use data_race_test.CacheLines.{Word}
use data_race_test.CacheLines.Covers.{whole_word, bits}
use data_race_test.CacheLines.Accesses.{prepare}
use data_race_test.CacheLines.Prepared.{Stands, Prepared, prepare-Prepared}
use data_race_test.CacheLines.Ranges.{
  Broken, get_cache_lines_for_range, get_cache_lines_for_range-Broken,
}

abbrev value : ShadowValue
value = record { rd_ssid = pos 2; wr_ssid = pos 3 }

-- One value for the eight bytes.
abbrev one_value : Word
one_value = record {
  gr = bits whole_word;
  has = λ r. r == 0;
  published = λ r. false;
  vals = λ r. value;
  counted = [];
}

one_value-Stands : Stands one_value (λ r. some value)
one_value-Stands =
    inr (whole_word, record { bits = refl; only = λ r q e. ground arith }, λ r q. refl)

prepare-Prepared_example : Prepared (λ r. some value) 2 2 (prepare 2 2 one_value)
prepare-Prepared_example =
    prepare-Prepared 2 2 one_value (λ r. some value)
      (inr (inr (inl (refl, (omega arith, omega arith))))) one_value-Stands

get_cache_lines_for_range-Broken_example : Broken 100 300 (get_cache_lines_for_range 100 300)
get_cache_lines_for_range-Broken_example =
    get_cache_lines_for_range-Broken 100 300 (omega arith) (omega arith)
