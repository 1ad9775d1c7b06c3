-- ===== src/Unsubscribe/Tests.antt =====
-- A newsletter's headers.
use briefed.Base.{ℕ, zero, suc, ◌≡◌, refl, [], ◌∷◌, true, false, none, some, arith}
use briefed.Base.Result.{ok}
use briefed.Schedule.Slot.{codes, is_space}
use briefed.Rubric.Texts.{Text}
use briefed.Unsubscribe.Header.{
  UnsubscribeAction, parse_list_unsubscribe, is_one_click, has_any_action, scheme_of, is_http,
}
use briefed.Unsubscribe.Header.Parsed.{Parses, parse_list_unsubscribe-Parses}
use briefed.Unsubscribe.Header.Printed.{
  IsPrintable, print_targets, targets, parse_list_unsubscribe-print_targets,
}
use briefed.Unsubscribe.Executor.{
  v4, response, Network, World, execute_unsubscribe, unsubscribed, one_click,
}
use briefed.Unsubscribe.Executor.Requests.{Executed, execute_unsubscribe-Executed}

messy :
    parse_list_unsubscribe
      (some (codes "<mailto:u@x.y>, < HTTP://a.b/1 >,<https://c.d/ 2>, <http://A.b/1>"))
      (some (codes "List-Unsubscribe = One-Click"))
    ≡ some (record {
      http_urls = codes "HTTP://a.b/1" ∷ codes "https://c.d/2" ∷ [];
      mailto = some (codes "mailto:u@x.y");
      one_click = true;
    })
unfolding parse_list_unsubscribe
messy = refl

loose :
    parse_list_unsubscribe (some (codes " https://c.d/2;, nonsense mailto:me")) none
    ≡ some (record {
      http_urls = codes "https://c.d/2" ∷ [];
      mailto = some (codes "mailto:me");
      one_click = false;
    })
unfolding parse_list_unsubscribe
loose = refl

abbrev header : Text
header = codes "<https://c.d/2>, <mailto:u@x.y>"

parse_list_unsubscribe-Parses_example :
    Parses header none (parse_list_unsubscribe (some header) none)
parse_list_unsubscribe-Parses_example = parse_list_unsubscribe-Parses header none

abbrev leave : UnsubscribeAction
leave = record {
  http_urls = codes "https://c.d/2" ∷ [];
  mailto = some (codes "mailto:u@x.y");
  one_click = true;
}

leave-IsPrintable : IsPrintable leave
unfolding scheme_of is_http has_any_action is_space
leave-IsPrintable = record {
  urls = (refl, tt);
  mail = (refl, tt);
  plain = ground arith;
  differ = (refl, (refl, tt));
  few = omega arith;
  acts = refl;
}

parse_list_unsubscribe-print_targets_example :
    parse_list_unsubscribe (some (print_targets (targets leave))) none
    ≡ some (record leave { one_click = is_one_click none })
parse_list_unsubscribe-print_targets_example =
    parse_list_unsubscribe-print_targets leave none leave-IsPrintable

abbrev if_first : ℕ → ℕ → ℕ → ℕ
if_first zero a b = a
if_first (suc n) a b = b

-- A name that resolves to 8.8.8.8 at first, and to 100.64.0.1, of a provider's own network, later.
abbrev net : Network
net = record {
  urlsplit = λ url. some (codes "https", some (codes "c.d"));
  ip_address = λ host. none;
  getaddrinfo = λ step host. ok (some (v4 (if_first step 134744072 1681915905)) ∷ []);
  is_private = λ a. false;
  is_loopback = λ a. false;
  is_link_local = λ a. false;
  is_reserved = λ a. false;
  is_multicast = λ a. false;
  is_unspecified = λ a. false;
  post = λ step url. response 202 (some 12 ∷ []);
}

abbrev start : World
start = record { step = 0; requests = [] }

left : execute_unsubscribe net leave start ≡ (
  ok (record {
    status = unsubscribed;
    executed_via = one_click;
    manual_url = none;
    error = none;
    message = "Unsubscribed via the sender's one-click endpoint.";
  }),
  record { step = 2; requests = codes "https://c.d/2" ∷ [] },
)
unfolding execute_unsubscribe
left = refl

execute_unsubscribe-Executed_example :
    Executed net leave start
      (execute_unsubscribe net leave start).0
      (execute_unsubscribe net leave start).1
execute_unsubscribe-Executed_example = execute_unsubscribe-Executed net leave start
