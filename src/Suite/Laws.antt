-- ===== src/Suite/Laws.antt =====
-- What the clean-up of a test in framework/test_suite/tester.py leaves behind, and what it finds.
use tempesta_test.Base.{
  not, keep, ◌⊎◌, ◌≡◌, refl, ap, sym, ◌∙◌, Bool, true, false, ◌&&◌, List, [], ◌∷◌, ◌++◌, map,
  Option, none, some, Error, framework_error, is_empty, ◌≢◌, All, arith, if◌then◌else◌,
  Option-cases, Bool-cases, inl, inr,
}
use tempesta_test.Text.{Text, same, one_of, is_in}
use tempesta_test.AutoParser.{AutoParser, check_exceptions}
use tempesta_test.Suite.{
  Suite, Runner, Task, Outside, to_list, get_all_services, get_clients, get_servers, errors_of,
  stop_runner, stop_all, gather_exceptions, put_exceptions, cleanup_tasks, cleanup_services,
  cleanup_deproxy, cleanup_interfaces, cleanup_stop_tcpdump, cleanup_check_dmesg,
  cleanup_check_exceptions, cleanup_deproxy_auto_parser, cleanup_check_memory_leaks, added_cleanups,
  do_cleanups, parser_error, bad_words,
}

-- The parts of a test that are stopped first.
abbrev Parts : Type 0 → Type 0
Parts W =
    Option (Runner W)
    × List (Text × Runner W)
    × List (Text × Runner W)
    × Option (Runner W)
    × List Text
    × List Task

put_exceptions-not_empty :
    (name : Text) (e : List Error) (l : List (Text × List Error)) → put_exceptions name e l ≢ []
unfolding put_exceptions
put_exceptions-not_empty name e [] = ground arith
put_exceptions-not_empty name e ((n, f) ∷ l) = elim (Bool-cases (same n name)) [
  | inl here ↦ rw (here, put_exceptions) (ground arith)
  | inr later ↦ rw (later, put_exceptions) (ground arith)
]

both_empty : (l : List Error) (o : Option Error) → l ++ to_list o ≡ [] → (l ≡ []) × (o ≡ none)
both_empty [] none h = (refl, refl)
both_empty [] (some e) h = absurd (ground arith)
both_empty (e ∷ l) o h = absurd (ground arith)

empty_of_error :
    (found : List (Text × List Error))
    → (if is_empty found then none else some framework_error) ≡ none
    → found ≡ []
empty_of_error [] h = refl
empty_of_error (e ∷ l) h = absurd (ground arith)

-- The addresses that the node is left with: those that the test did not add and those whose removal did
-- not work, or all of them if there was no networker to remove them.
abbrev pub left_aliases : Outside → List Text → List Text → List Text
left_aliases w ips aliases = elim w.networker [
  | none ↦ keep (λ ip. not (one_of ip ips && w.removes ip)) aliases
  | some e ↦ aliases
]

abbrev pub left_ips : Option Error → List Text → List Text
left_ips none ips = []
left_ips (some e) ips = ips

errors_of-eq-none :
    (words ignored : List Text) (log : Text)
    → errors_of words ignored log ≡ none
    → All (λ e. (one_of e ignored ≡ true) ⊎ (is_in e log ≡ false)) words
unfolding errors_of
errors_of-eq-none [] ignored log h = tt
errors_of-eq-none (e ∷ l) ignored log h = elim (Bool-cases (one_of e ignored)) [
  | inl passed ↦ (inl passed, errors_of-eq-none l ignored log (rw (passed) at h))
  | inr asked ↦ elim (Bool-cases (is_in e log)) [
    | inl found ↦ absurd (ground (arith, rw (asked, found) at h))
    | inr absent ↦ (inr absent, errors_of-eq-none l ignored log (rw (asked, absent) at h))
  ]
]

parser_error-eq-none :
    (parser : Option AutoParser)
    → parser_error parser ≡ none
    → (p : AutoParser) × (parser ≡ some p) × (p.exceptions ≡ [])
unfolding check_exceptions
parser_error-eq-none none h = absurd (ground arith)
parser_error-eq-none (some p) h = (p, refl, ground arith)

module _ {W : Type 0} where
  abbrev parts : Suite W → Parts W
  parts s = (s.tempesta, s.clients, s.servers, s.deproxy_manager, s.sockets, s.tasks)

  cleanup_interfaces-parts :
      (w : Outside) (s : Suite W) → parts (cleanup_interfaces w s).0 ≡ parts s
  unfolding cleanup_interfaces
  cleanup_interfaces-parts w s = elim (Option-cases w.networker) [
    | inl made ↦ rw (made, cleanup_interfaces)
    | inr (e, failed) ↦ rw (failed, cleanup_interfaces)
  ]

  abbrev address_parts : Suite W → List Text × List Text
  address_parts s = (s.ips, s.aliases)

  cleanup_interfaces-ips :
      (w : Outside) (s : Suite W)
      → address_parts (cleanup_interfaces w s).0
        ≡ (left_ips w.networker s.ips, left_aliases w s.ips s.aliases)
  unfolding cleanup_interfaces
  cleanup_interfaces-ips w s = elim (Option-cases w.networker) [
    | inl made ↦ rw (made, cleanup_interfaces)
    | inr (e, failed) ↦ rw (failed, cleanup_interfaces)
  ]

  abbrev ip_parts : Suite W → Parts W × (List Text × List Text)
  ip_parts s = (parts s, (s.ips, s.aliases))

  cleanup_stop_tcpdump-parts :
      (w : Outside) (s : Suite W)
      → (ip_parts (cleanup_stop_tcpdump w s).0 ≡ ip_parts s)
        × ((w.save_tcpdump && (cleanup_stop_tcpdump w s).0.tcpdump) ≡ false)
  unfolding cleanup_stop_tcpdump
  cleanup_stop_tcpdump-parts w s = elim (Bool-cases w.save_tcpdump) [
    | inr unused ↦ rw (unused, cleanup_stop_tcpdump) (refl, refl)
    | inl used ↦ elim (Bool-cases s.tcpdump) [
      | inl runs ↦ rw (used, runs, cleanup_stop_tcpdump) (refl, refl)
      | inr gone ↦ rw (used, gone, cleanup_stop_tcpdump) (refl, refl)
    ]
  ]

  abbrev parser_parts : Suite W → Parts W × (List Text × List Text) × Bool × Option AutoParser
  parser_parts s = (parts s, (s.ips, s.aliases), s.tcpdump, s.auto_parser)

  abbrev later_parts : Suite W → Parts W × (List Text × List Text) × Bool
  later_parts s = (parts s, (s.ips, s.aliases), s.tcpdump)

  cleanup_check_dmesg-parts :
      (w : Outside) (s : Suite W) → parser_parts (cleanup_check_dmesg w s).0 ≡ parser_parts s
  unfolding cleanup_check_dmesg
  cleanup_check_dmesg-parts w s = elim (Option-cases s.dmesg) [
    | inl no_log ↦ rw (no_log, cleanup_check_dmesg)
    | inr (old, log) ↦ elim (Option-cases (errors_of bad_words s.oops_ignore w.log)) [
      | inl clean ↦ rw (log, clean, cleanup_check_dmesg)
      | inr (e, found) ↦ rw (log, found, cleanup_check_dmesg)
    ]
  ]

  cleanup_deproxy_auto_parser-parts :
      (s : Suite W)
      → (later_parts (cleanup_deproxy_auto_parser s).0 ≡ later_parts s)
        × ((cleanup_deproxy_auto_parser s).0.auto_parser ≡ none)
  unfolding cleanup_deproxy_auto_parser
  cleanup_deproxy_auto_parser-parts s = elim (Option-cases s.auto_parser) [
    | inl gone ↦ rw (gone, cleanup_deproxy_auto_parser) (refl, gone)
    | inr (p, here) ↦ rw (here, cleanup_deproxy_auto_parser) (refl, refl)
  ]

  -- What is left after the steps down to a point, the last added first.
  abbrev after_stopping : Suite W → Suite W
  after_stopping s = (cleanup_deproxy (cleanup_services (cleanup_tasks s).0).0).0

  abbrev after_interfaces : Outside → Suite W → Suite W
  after_interfaces w s = (cleanup_interfaces w (after_stopping s)).0

  abbrev after_tcpdump : Outside → Suite W → Suite W
  after_tcpdump w s = (cleanup_stop_tcpdump w (after_interfaces w s)).0

  abbrev after_dmesg : Outside → Suite W → Suite W
  after_dmesg w s = (cleanup_check_dmesg w (after_tcpdump w s)).0

  -- What stopping the services does not change.
  abbrev kept_parts :
      Suite W → (List Text × List Text) × (Option Text × List Text × Option AutoParser)
  kept_parts s = ((s.ips, s.aliases), (s.dmesg, s.oops_ignore, s.auto_parser))

  after_stopping-kept_parts : (s : Suite W) → kept_parts (after_stopping s) ≡ kept_parts s
  unfolding cleanup_deproxy cleanup_services cleanup_tasks stop_all get_all_services get_clients
      get_servers
  after_stopping-kept_parts s = elim (Option-cases s.deproxy_manager) [
    | inl missing ↦ rw (missing) refl
    | inr (m, here) ↦
        elim (Option-cases
          (gather_exceptions (map stop_runner (get_all_services s)) s.exceptions).1) [
            | inl cleared ↦ rw (here, cleared) refl
            | inr (e, raised) ↦ rw (here, raised) refl
          ]
  ]

  gather_exceptions-clears :
      (l : List (Runner W)) (found : List (Text × List Error))
      → All (λ r. (r.clear_stats r.service.world).1 ≡ none) l
      → (gather_exceptions l found).1 ≡ none
  unfolding gather_exceptions
  gather_exceptions-clears [] found h = refl
  gather_exceptions-clears (r ∷ l) found h =
      rw (gather_exceptions, h.0) (gather_exceptions-clears l _ h.1)

  -- The services are stopped, and no `clear_stats` after it raises.
  abbrev pub AreCleared : Suite W → Type 0
  AreCleared s =
      All (λ r. (r.clear_stats r.service.world).1 ≡ none) (map stop_runner (get_all_services s))

  after_stopping-parts :
      (s : Suite W) (m : Runner W)
      → s.deproxy_manager ≡ some m
      → AreCleared s
      → parts (after_stopping s) ≡ (none, [], [], none, [], [])
  unfolding cleanup_deproxy cleanup_services cleanup_tasks get_all_services get_clients get_servers
  after_stopping-parts s m here h =
      let cleared =
        gather_exceptions-clears (map stop_runner (get_all_services s)) s.exceptions h in
      rw (here, cleared) refl

  -- If there is a deproxy manager and no service raises when its statistics are cleared after it
  -- was stopped, then after the clean-up of a test there is no Tempesta, client, server, deproxy
  -- manager, socket, task or parser, and no tcpdump if it is used. If the networker can be made,
  -- then the list of addresses is empty and the aliases on the node are those that are not in the
  -- list or whose removal fails silently; else both are as they were. This holds whatever the
  -- stop procedures of the services, dmesg, tcpdump and the other steps raise.
  pub do_cleanups-stops :
      (w : Outside) (s : Suite W) (m : Runner W)
      → s.deproxy_manager ≡ some m
      → AreCleared s
      → let d = (do_cleanups (added_cleanups w) s).0 in
        (d.tempesta ≡ none)
        × (d.clients ≡ [])
        × (d.servers ≡ [])
        × (d.deproxy_manager ≡ none)
        × (d.sockets ≡ [])
        × (d.tasks ≡ [])
        × (d.auto_parser ≡ none)
        × ((w.save_tcpdump && d.tcpdump) ≡ false)
        × (d.ips ≡ left_ips w.networker s.ips)
        × (d.aliases ≡ left_aliases w s.ips s.aliases)
  unfolding do_cleanups added_cleanups cleanup_check_memory_leaks cleanup_check_exceptions
  do_cleanups-stops w s m here cleared =
      let (last, no_parser) = cleanup_deproxy_auto_parser-parts (after_dmesg w s) in
      let dmesg_kept = cleanup_check_dmesg-parts w (after_tcpdump w s) in
      let (tcpdump_kept, stopped) = cleanup_stop_tcpdump-parts w (after_interfaces w s) in
      let all : parts (cleanup_deproxy_auto_parser (after_dmesg w s)).0
          ≡ (none, [], [], none, [], []) =
        ap (λ p. p.0) last
        ∙ ap (λ p. p.0) dmesg_kept
        ∙ ap (λ p. p.0) tcpdump_kept
        ∙ cleanup_interfaces-parts w (after_stopping s)
        ∙ after_stopping-parts s m here cleared in
      let kept = ap (λ p. p.0) (after_stopping-kept_parts s) in
      let left =
        ap (λ p. p.1) last
        ∙ ap (λ p. p.1) dmesg_kept
        ∙ ap (λ p. p.1) tcpdump_kept
        ∙ cleanup_interfaces-ips w (after_stopping s)
        ∙ ap (λ p. (left_ips w.networker p.0, left_aliases w p.0 p.1)) kept in
      (
        ap (λ p. p.0) all,
        ap (λ p. p.1) all,
        ap (λ p. p.2) all,
        ap (λ p. p.3) all,
        ap (λ p. p.4) all,
        ap (λ p. p.5) all,
        no_parser,
        ap (λ p. w.save_tcpdump && p.2) last ∙ ap (λ p. w.save_tcpdump && p.2) dmesg_kept ∙ stopped,
        ap (λ p. p.0) left,
        ap (λ p. p.1) left,
      )

  -- What the log is searched with, and the parser.
  abbrev log_parts : Suite W → Option Text × List Text × Option AutoParser
  log_parts s = (s.dmesg, s.oops_ignore, s.auto_parser)

  after_tcpdump-log_parts :
      (w : Outside) (s : Suite W) → log_parts (after_tcpdump w s) ≡ log_parts (after_stopping s)
  unfolding cleanup_stop_tcpdump cleanup_interfaces
  after_tcpdump-log_parts w s = tcpdump (after_interfaces w s) ∙ interfaces (after_stopping s)
    where
      interfaces : (d : Suite W) → log_parts (cleanup_interfaces w d).0 ≡ log_parts d
      interfaces d = elim (Option-cases w.networker) [
        | inl made ↦ rw (made, cleanup_interfaces)
        | inr (e, failed) ↦ rw (failed, cleanup_interfaces)
      ]

      tcpdump : (d : Suite W) → log_parts (cleanup_stop_tcpdump w d).0 ≡ log_parts d
      tcpdump d = elim (Bool-cases w.save_tcpdump) [
        | inr unused ↦ rw (unused, cleanup_stop_tcpdump)
        | inl used ↦ elim (Bool-cases d.tcpdump) [
          | inl runs ↦ rw (used, runs, cleanup_stop_tcpdump)
          | inr gone ↦ rw (used, gone, cleanup_stop_tcpdump)
        ]
      ]

  gather_exceptions-empty :
      (l : List (Runner W)) (found : List (Text × List Error))
      → gather_exceptions l found ≡ ([], none)
      → (found ≡ []) × All (λ r. is_empty r.service.exceptions ≡ true) l
  unfolding gather_exceptions
  gather_exceptions-empty [] found h = (ap (λ p. p.0) h, tt)
  gather_exceptions-empty (r ∷ l) found h = elim (Option-cases (r.clear_stats r.service.world).1) [
    | inr (e, raised) ↦ absurd (ground (arith, rw (raised) at h))
    | inl cleared ↦ elim (Bool-cases (is_empty r.service.exceptions)) [
      | inl clean ↦
          let (none_found, rest) = gather_exceptions-empty l found (rw (cleared, clean) at h) in
          (none_found, (clean, rest))
      | inr failed ↦
          let (put, rest) = gather_exceptions-empty l _ (rw (cleared, failed) at h) in
          absurd (put_exceptions-not_empty r.name r.service.exceptions found put)
    ]
  ]

  cleanup_services-eq-none :
      (s : Suite W)
      → (cleanup_services s).1 ≡ none
      → gather_exceptions (map stop_runner (get_all_services s)) s.exceptions ≡ ([], none)
  unfolding cleanup_services
  cleanup_services-eq-none s h = elim (Option-cases s.deproxy_manager) [
    | inl missing ↦ absurd (ground (arith, rw (cleanup_services, missing) at h))
    | inr (m, here) ↦
        elim (Option-cases
          (gather_exceptions (map stop_runner (get_all_services s)) s.exceptions).1) [
            | inr (e, raised) ↦ absurd (ground (arith, rw (cleanup_services, here, raised) at h))
            | inl cleared ↦ ground (
              arith,
              cleared,
              empty_of_error
                  (gather_exceptions (map stop_runner (get_all_services s)) s.exceptions).0
                  (rw (cleanup_services, here, cleared) at h),
            )
          ]
  ]

  errors_of-check_dmesg :
      (w : Outside) (s : Suite W)
      → (cleanup_check_dmesg w s).1 ≡ none
      → errors_of bad_words s.oops_ignore w.log ≡ none
  unfolding cleanup_check_dmesg
  errors_of-check_dmesg w s h = elim (Option-cases (errors_of bad_words s.oops_ignore w.log)) [
    | inl clean ↦ clean
    | inr (e, found) ↦ elim (Option-cases s.dmesg) [
      | inl no_log ↦ absurd (ground (arith, rw (no_log, cleanup_check_dmesg) at h))
      | inr (old, log) ↦ absurd (ground (arith, rw (log, found, cleanup_check_dmesg) at h))
    ]
  ]

  -- If the clean-up of a test raises nothing, then no service had an exception after it was
  -- stopped, each of the four words is ignored by the test or not in dmesg, the parser was there
  -- and had recorded no exception, the networker could be made, and the check of the memory
  -- raised none.
  pub do_cleanups-finds :
      (w : Outside) (s : Suite W)
      → (do_cleanups (added_cleanups w) s).1 ≡ []
      → All (λ r. is_empty r.service.exceptions ≡ true) (map stop_runner (get_all_services s))
        × All (λ e. (one_of e s.oops_ignore ≡ true) ⊎ (is_in e w.log ≡ false)) bad_words
        × ((p : AutoParser) × (s.auto_parser ≡ some p) × (p.exceptions ≡ []))
        × (w.networker ≡ none)
        × (w.memory_check ≡ none)
  unfolding do_cleanups added_cleanups cleanup_check_memory_leaks cleanup_check_exceptions
      cleanup_deproxy cleanup_tasks cleanup_interfaces get_all_services get_clients get_servers
  do_cleanups-finds w s h =
      let (h8, memory) = both_empty _ w.memory_check h in
      let (h7, parser_gone) = both_empty _ (cleanup_deproxy_auto_parser (after_dmesg w s)).1 h8 in
      let (h6, parser) = both_empty _ (parser_error (after_dmesg w s).auto_parser) h7 in
      let (h5, dmesg) = both_empty _ (cleanup_check_dmesg w (after_tcpdump w s)).1 h6 in
      let (h4, tcpdump) = both_empty _ (cleanup_stop_tcpdump w (after_interfaces w s)).1 h5 in
      let (h3, interfaces) = both_empty _ (cleanup_interfaces w (after_stopping s)).1 h4 in
      let raised = (cleanup_services (cleanup_tasks s).0).1 in
      let services = (both_empty [] raised (both_empty (to_list raised) none h3).0).1 in
      let kept = after_tcpdump-log_parts w s ∙ ap (λ p. p.1) (after_stopping-kept_parts s) in
      let same_parser =
        ap (λ p. p.3) (cleanup_check_dmesg-parts w (after_tcpdump w s)) ∙ ap (λ p. p.2) kept in
      (
        (gather_exceptions-empty (map stop_runner (get_all_services s)) s.exceptions
            (cleanup_services-eq-none (cleanup_tasks s).0 services)).1,
        errors_of-eq-none bad_words s.oops_ignore w.log (
            ap (λ ignored. errors_of bad_words ignored w.log) (sym (ap (λ p. p.1) kept))
            ∙ errors_of-check_dmesg w (after_tcpdump w s) dmesg),
        parser_error-eq-none s.auto_parser (ap parser_error (sym same_parser) ∙ parser),
        networker_none (after_stopping s) interfaces,
        memory,
      )
    where
      networker_none : (d : Suite W) → (cleanup_interfaces w d).1 ≡ none → w.networker ≡ none
      networker_none d quiet = elim (Option-cases w.networker) [
        | inl made ↦ made
        | inr (e, failed) ↦ absurd (ground (arith, rw (cleanup_interfaces, failed) at quiet))
      ]
