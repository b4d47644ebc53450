-- ===== src/Simple/Tests.antt =====
-- dnssimple on two data files, one of which does not open.
use os_dns_resolver.Base.{[], ◌∷◌, some, true, false, arith, refl, ◌≡◌}
use os_dns_resolver.Samples.{sample_net, sample_files, f_name, log_name}
use os_dns_resolver.Simple.{main}
use os_dns_resolver.Simple.Correct.{main_spec, main_correct, outcome, all_hosts}
use os_dns_resolver.Simple.Answers.{IsLog, main_answers}
use os_dns_resolver.Strings.{Text}

main_correct_example :
    main sample_net sample_files (λ log. true) 9 (log_name ∷ f_name ∷ [] ∷ [])
    ≡ some (main_spec sample_net sample_files log_name (f_name ∷ [] ∷ []))
main_correct_example =
    main_correct sample_net sample_files (λ log. true) 9 log_name f_name ([] ∷ []) (λ log. refl)
      (omega arith)

-- A run in which every malloc of dns_resolve fails.
main_answers_example :
    (logged : Text) × (main sample_net sample_files (λ log. false) 9 (log_name ∷ f_name ∷ [] ∷ [])
      ≡ some (outcome sample_files log_name (f_name ∷ [] ∷ []) logged))
    × IsLog sample_net (all_hosts sample_files (f_name ∷ [] ∷ [])) logged
main_answers_example =
    main_answers sample_net sample_files (λ log. false) 9 log_name f_name ([] ∷ []) (omega arith)
