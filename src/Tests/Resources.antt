-- ===== src/Tests/Resources.antt =====
-- What is opened is closed, over a board that prints a script.
use k8s_jumperless.Api.Types.{Jumperless}
use k8s_jumperless.Base.Calls.{Tidy}
use k8s_jumperless.Base.{
  true, false, Option, none, some, [], ◌≡◌, refl, ap, sym, Bytes, Result, ok, codes, str_eq, ℤ, pos,
}
use k8s_jumperless.Controller.Closed.{reconcile-Tidy}
use k8s_jumperless.Controller.Reconcile.{Cluster, found, reconcile}
use k8s_jumperless.Controller.{ConditionStatus}
use k8s_jumperless.Proxy.Config.{ProxyConfig}
use k8s_jumperless.Proxy.Run.Resources.{run_proxy-Tidy}
use k8s_jumperless.Proxy.Run.{RunError, Session, run_proxy}
use k8s_jumperless.Tests.Examples.{in_order, marking}
use k8s_jumperless.Tests.Logging.{
  Log, calls_of, logging, logging-IsLogged, logging_host, logging_host-IsLogged, logging_tools,
  start_log,
}
use k8s_jumperless.Tests.Reconciliation.{instance', ready_only}
use k8s_jumperless.Tests.Reconciliation
use k8s_jumperless.Tests.System.{session, two_ports}
use k8s_jumperless.Emulator.Mappings.{Mappings}
use mathlib.Core.Option.{some-injective}

abbrev cluster : Cluster ready_only logging
cluster = record {
  Unstructured = Jumperless (Option (ConditionStatus × ℤ));
  fetch = λ name w. (found instance', w);
  to_unstructured = λ object. some object;
  patch = λ object w. (true, w);
}

reconcile-Tidy_example :
    Tidy calls_of
      (start_log Reconciliation.answers)
      (reconcile ready_only logging logging_tools in_order 3 cluster
        (codes "default", codes "board")
        (start_log Reconciliation.answers)).1
reconcile-Tidy_example =
    reconcile-Tidy ready_only logging logging_tools in_order 3 cluster calls_of logging-IsLogged
      (record { log_fetch = λ name w. refl; log_patch = λ object w. refl }) (λ w. refl)
      (codes "default", codes "board") (start_log Reconciliation.answers)

abbrev proxy_config : ProxyConfig
proxy_config = record {
  baud_rate = pos 115200;
  buffer_size = pos 1024;
  virtual_port = codes "/dev/board";
  real_port = [];
  overwrite = false;
}

abbrev ended : Option (Result RunError Mappings × Log)
ended =
    run_proxy logging (logging_host true) logging_tools marking session 3 proxy_config
      (start_log two_ports)

-- What `Run` returns, and the world behind it.
abbrev returned : Option (Result RunError Mappings × Log) → Result RunError Mappings × Log
returned none = (ok [], start_log [])
returned (some r) = r

returns : ended ≡ some ((returned ended).0, (returned ended).1)
unfolding run_proxy str_eq
returns = refl

run_proxy-Tidy_example : Tidy calls_of (start_log two_ports) (returned ended).1
run_proxy-Tidy_example =
    run_proxy-Tidy logging (logging_host true) logging_tools marking session 3 proxy_config calls_of
      logging-IsLogged (logging_host-IsLogged true)
      (record {
        log_done = λ p h w. refl;
        log_unblocked = λ p h w. refl;
        log_ended = λ p h w events w1 e. ap (λ r. r.1.calls) (sym (some-injective _ _ e));
      })
      (λ w. refl) (start_log two_ports) (returned ended).1 (returned ended).0 returns

-- A goroutine of it waits for ever.
abbrev hanging : Session (logging_host true) Bytes
hanging = record session { until_ended = λ p h w. none }

never_returns :
    run_proxy logging
      (logging_host true)
      logging_tools
      marking
      hanging
      3
      proxy_config
      (start_log two_ports)
    ≡ none
unfolding run_proxy str_eq
never_returns = refl
