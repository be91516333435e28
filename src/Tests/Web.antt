-- ===== src/Tests/Web.antt =====
-- Tests of the web server of the debug page.
use svc_lb_mux.Prelude.{
  ℕ, ◌≡◌, refl, Bool, true, false, none, some, Option, List, [], ◌∷◌, arith, Str, codes, ◌+◌,
}
use svc_lb_mux.Web.Guard.{WebRequest, WebResponse, serve}
use svc_lb_mux.Web.GuardLaws.{IsGuarded, serve-IsGuarded}
use svc_lb_mux.Web.TestTcp.{handle_test_tcp, code}
use svc_lb_mux.Prelude.{pos}

-- a handler that counts its calls
abbrev count_calls : WebRequest → ℕ → Option (WebResponse Str) × ℕ
count_calls request calls =
    (some (record { content = codes "hello"; status_code = 200; headers = [] }), calls + 1)

abbrev as_it_is : Str → Str
as_it_is s = s

abbrev plain : Str → Option Str
plain s = some s

abbrev without_token : WebRequest
without_token = record { path = codes "/api/state"; authorization = some (codes "Basic u:wrong") }

abbrev with_token : WebRequest
with_token = record { path = codes "/api/state"; authorization = some (codes "Basic u:key") }

refused : (serve as_it_is (codes "key") plain count_calls without_token 0).1 ≡ 0
unfolding serve svc_lb_mux.Prelude.Str-discrete svc_lb_mux.Prelude.after_prefix
    svc_lb_mux.Prelude.partition
refused = refl

handled : (serve as_it_is (codes "key") plain count_calls with_token 0).1 ≡ 1
unfolding serve svc_lb_mux.Prelude.Str-discrete svc_lb_mux.Prelude.after_prefix
    svc_lb_mux.Prelude.partition
handled = refl

serve-IsGuarded_example :
    IsGuarded as_it_is
      (codes "key")
      plain
      count_calls
      without_token
      0
      (serve as_it_is (codes "key") plain count_calls without_token 0)
serve-IsGuarded_example = serve-IsGuarded as_it_is (codes "key") plain count_calls without_token 0

-- without permission no connection is tried, and no event is recorded
actions_disabled :
    (handle_test_tcp []
      (λ host port. code (pos 0))
      []
      false
      (some (codes "h"))
      (some (codes "80"))
      []).1
    ≡ []
unfolding handle_test_tcp
actions_disabled = refl
