-- ===== src/Dns/Examples.antt =====
-- Runs of the DNS lookup, and its theorems at concrete states.
use tr069_manager.Base.{
  ◌+◌, ◌*◌, ◌≤◌, ◌≡◌, refl, ◌↔◌, ◌⊎◌, true, false, none, some, List, [], ◌∷◌, arith, pos, codes,
  streq, atoi,
}
use tr069_manager.Dns.Defs.{Node, found, set_ip_list, bootstrap_inform, query, Dns, Env, arm}
use tr069_manager.Dns.Answer.{
  ip_list_text, update_dm, schedule, read_nodes, read_ai, send_pending_bootstrap, take_answer,
}
use tr069_manager.Dns.Lookup.{
  find_resolver, on_resolver, resolve_cb, get_aifamily, resolver_create, ares_resolution,
  mark_dirty, forget_addresses, drop_lookups, resolve_host, resolve,
}
use tr069_manager.Dns.Events.{
  Event, resolve_call, answer_came, answer_if_pending, handle, run_events,
}
use tr069_manager.Dns.Reading.{after_answer, take_answer-found}
use tr069_manager.Dns.Delay.{lookup_delay_iff}
use tr069_manager.Dns.Watch.{IsWatching, NamesHost, run_events-IsWatching}
use tr069_manager.Dns.Bootstrap.{asked, new_urls, run_events-asked}
use tr069_manager.Client.Defs as ClientDefs
use tr069_manager.Client.Address
use tr069_manager.Client.Examples as ClientExamples
use tr069_manager.Dns.Session.{ip_list_after, IsPlainNode, Gives, session_address}
use tr069_manager.Dns.Splitting.{split_csv, split_csv-SplitsCsv}
use tr069_manager.Client.Source

abbrev env : Env
env = record {
  url = some (codes "http://acs/");
  parse_host = λ url. some (codes "acs");
  is_ipv4 = λ text. false;
  is_ipv6 = λ text. false;
  inform_interval = some (codes "600");
  address_family = some (codes "4");
  init_fails = false;
  answer_at_once = none;
  remaining_time = 7;
}

-- The module after its set-up, with the timer running.
abbrev start : Dns
start = record {
  ttl_val = pos 0;
  ttl_timer = some 9000;
  has_timer = true;
  ainfo_list = [];
  resolvers = [];
  send_bootstrap = false;
  next_id = 0;
  log = [];
}

abbrev node_a : Node
node_a = record { ntop = none; ares_ntop = some (codes "10.0.0.1"); ttl = pos 60 }

abbrev node_b : Node
node_b = record { ntop = none; ares_ntop = some (codes "10.0.0.2"); ttl = pos 40 }

-- A new URL, a second lookup before the first has its answer, and both answers.
abbrev events : List (Env × Event)
events =
    (env, resolve_call true)
    ∷ (env, resolve_call false)
    ∷ (env, answer_came 0 (found node_b []))
    ∷ (env, answer_came 1 (found node_a (node_b ∷ [])))
    ∷ []

run_test :
    (run_events events start).log
    ≡ set_ip_list []
      ∷ query 0 (codes "acs") 4
      ∷ query 1 (codes "acs") 4
      ∷ set_ip_list (codes "10.0.0.1,10.0.0.2")
      ∷ bootstrap_inform
      ∷ []
unfolding run_events handle resolve resolve_host ares_resolution resolver_create drop_lookups
    forget_addresses mark_dirty get_aifamily atoi answer_if_pending resolve_cb find_resolver
    on_resolver take_answer send_pending_bootstrap schedule update_dm read_ai read_nodes
    ip_list_text arm
run_test = refl

env-NamesHost : NamesHost env
env-NamesHost h e = ground (arith, e)

run_events-IsWatching_example : IsWatching (run_events events start)
run_events-IsWatching_example =
    run_events-IsWatching events start
      (env-NamesHost, (env-NamesHost, (env-NamesHost, (env-NamesHost, tt)))) (refl, refl)

abbrev asking : Dns
asking = (resolve env true start).0

run_events-asked_example : asked (run_events events start) ≤ asked start + new_urls events
run_events-asked_example = run_events-asked events start

take_answer-found_test :
    take_answer env false (found node_a (node_b ∷ [])) start
    ≡ send_pending_bootstrap
        (after_answer env ((codes "10.0.0.1", pos 60) ∷ (codes "10.0.0.2", pos 40) ∷ []) start)
take_answer-found_test = take_answer-found env node_a (node_b ∷ []) start

lookup_delay_iff_test :
    ((take_answer env false (found node_a (node_b ∷ [])) start).ttl_timer ≡ some (40 * 1000))
    ↔ (40 ≤ 4294967)
lookup_delay_iff_test =
    lookup_delay_iff env node_a (node_b ∷ []) 40 start refl refl (omega arith) (omega arith)

abbrev acs_env : ClientDefs.Env
acs_env = record ClientExamples.env {
  acs_ip = some [];
  acs_ip_list = ip_list_after none (take_answer env false (found node_a (node_b ∷ [])) start).log;
  csv_to_list = split_csv;
}

plain_a : IsPlainNode node_a
plain_a = (tt, (refl, (refl, (refl, (refl, (refl, (refl, (refl, (refl, tt)))))))))

plain_b : IsPlainNode node_b
plain_b = (tt, (refl, (refl, (refl, (refl, (refl, (refl, (refl, (refl, tt)))))))))

named : Address.is_ipaddr acs_env ClientExamples.client.server_host ≡ false
unfolding Address.is_ipaddr streq
named = refl

got :
    ((Address.get_acsip acs_env ClientExamples.client).1.1 ≡ true)
    × ((Address.get_acsip acs_env ClientExamples.client).0.server_ip ≡ some (codes "10.0.0.2"))
unfolding Address.get_acsip Address.choose_ip Address.get_random_ip Address.is_ipaddr
    Address.update_qos_info streq take_answer read_ai read_nodes update_dm ip_list_text schedule
    send_pending_bootstrap arm split_csv
got = (refl, refl)

session_address_example :
    Gives (codes "10.0.0.2") (node_a ∷ node_b ∷ [])
    ⊎ Source.IsKept acs_env ClientExamples.client (codes "10.0.0.2")
session_address_example =
    session_address env start node_a (node_b ∷ []) none acs_env ClientExamples.client
      (codes "10.0.0.2") (plain_a, (plain_b, tt)) split_csv-SplitsCsv refl named got.0 got.1
