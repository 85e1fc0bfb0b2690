-- ===== src/ValidateCommand/Samples.antt =====
-- The command on a directory with a small suite.
use truthmetal.Base.{String, ◌≡◌, ◌↔◌, some, List, [], ◌∷◌}
use truthmetal.GoldenSuite.Contract.{Summary}
use truthmetal.GoldenSuite.Gates.Spec.{required_keys}
use truthmetal.GoldenSuite.Samples.{required_order, directory_accepted}
use truthmetal.GoldenSuite.Samples.Suite.{
  test_files, test_lib, constant, test_manifest, test_gates, test_cases, test_summary,
}
use truthmetal.ValidateCommand.{Ended, Accepts, main, exit_code, printed, main_iff}

abbrev test_args : List String
test_args = "validate-golden-suite" ∷ "v1" ∷ []

abbrev test_main : Ended
test_main =
    (main test_files test_lib required_keys (constant test_manifest) (constant test_gates)
      (constant test_cases) (λ summary w. (some tt, w)) test_args tt).0

prints_summary : test_main ≡ printed test_summary
unfolding main
prints_summary = rw (test_main, directory_accepted)

main_iff_example :
    ((test_main ≡ printed test_summary)
      ↔ Accepts test_files test_lib required_keys
          (constant test_manifest)
          (constant test_gates)
          (constant test_cases)
          (λ summary w. (some tt, w))
          test_args
          tt
          test_summary)
    × ((exit_code test_main ≡ 0) ↔ ((s : Summary) × (test_main ≡ printed s)))
main_iff_example =
    main_iff test_files test_lib required_keys (constant test_manifest) (constant test_gates)
      (constant test_cases) (λ summary w. (some tt, w)) required_order test_args tt test_summary
