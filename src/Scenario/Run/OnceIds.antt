-- ===== src/Scenario/Run/OnceIds.antt =====
-- Subscriptions for one event, when others come and go.
use pjsua_mcp.Prelude.{ℕ, ◌≡◌, refl, Bool, false, List, [], ◌∷◌, arith, nat_eq, contains, keep}
use pjsua_mcp.Text.{text_eq}
use pjsua_mcp.Dict.{Dict, set, pop, pop_all}
use pjsua_mcp.Bus.{Subscription, subscriptions, once_ids}

pub once_ids-keep :
    (p : Subscription → Bool) (id : ℕ) (subs : List Subscription)
    → contains id (once_ids subs) ≡ false
    → contains id (once_ids (keep p subs)) ≡ false
once_ids-keep p id [] h = refl
once_ids-keep p id (sub ∷ subs) h = ground (arith, h, once_ids-keep p id subs)

pub once_ids-pop :
    (i id : ℕ) (d : Dict ℕ Subscription)
    → contains id (once_ids (subscriptions d)) ≡ false
    → contains id (once_ids (subscriptions (pop d i))) ≡ false
unfolding pop
once_ids-pop i id [] h = refl
once_ids-pop i id ((k, sub) ∷ d) h = ground (arith, h, once_ids-pop i id d)

pub once_ids-pop_all :
    (is : List ℕ) (id : ℕ) (d : Dict ℕ Subscription)
    → contains id (once_ids (subscriptions d)) ≡ false
    → contains id (once_ids (subscriptions (pop_all d is))) ≡ false
unfolding pop_all
once_ids-pop_all [] id d h = h
once_ids-pop_all (i ∷ is) id d h = once_ids-pop_all is id (pop d i) (once_ids-pop i id d h)

pub once_ids-set :
    (k id : ℕ) (sub : Subscription) (d : Dict ℕ Subscription)
    → sub.once ≡ false
    → contains id (once_ids (subscriptions d)) ≡ false
    → contains id (once_ids (subscriptions (set d k sub))) ≡ false
unfolding set
once_ids-set k id sub [] n h = ground (arith, n)
once_ids-set k id sub ((j, other) ∷ d) n h = ground (arith, n, h, once_ids-set k id sub d n)
