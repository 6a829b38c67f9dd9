-- ===== src/Gateway/Batch/Stops.antt =====
-- What `stop_on_error` changes.
use browser.Prelude.{
  ℕ, suc, ◌+◌, String, ◌≡◌, refl, ap, ◌⊎◌, inl, inr, true, false, Option, none, some, arith,
}
use browser.Value.{
  Value, null, bool, int, float, str, list, dict, Items, nil, cons, Fields, get, count,
}
use browser.Flow.Floats.{Floats}
use browser.Gateway.{ClientInfo}
use browser.Gateway.Batch.{
  Rpc, named_method, params_of, ok_entry, missing_entry, error_entry, then_entry, after_call,
  call_one, call_each, supports, rpc_call_many,
}

module _ {F : Type 0} where
  -- The calls that are dicts; others are passed over.
  abbrev pub dicts : Items F → ℕ
  dicts nil = 0
  dicts (cons (dict c) calls) = dicts calls + 1
  dicts (cons _ calls) = dicts calls

  abbrev pub AllOk : Items F → Type 0
  AllOk nil = Unit
  AllOk (cons v vs) = ((r : Value F) × (v ≡ ok_entry r)) × AllOk vs

  module _ {W : Type 0} where
    -- One entry for each of n calls, whether they raise or not.
    abbrev pub Answers : ℕ → W × (String ⊎ Items F) → Type 0
    Answers n (w, inl error) = ⊥
    Answers n (w, inr out) = count out ≡ n

    -- The first, if it did not raise, is the same as the second, and all its entries are results.
    abbrev pub Agrees : W × (String ⊎ Items F) → W × (String ⊎ Items F) → Type 0
    Agrees (w, inl error) r = Unit
    Agrees (w, inr out) r = (r ≡ (w, inr out)) × AllOk out

    then-Answers :
        (n : ℕ) (v : Value F) (r : W × (String ⊎ Items F))
        → Answers n r
        → Answers (n + 1) (then_entry v r)
    unfolding count
    then-Answers n v (w, inl error) h = h
    then-Answers n v (w, inr out) h = omega (arith, h)

    then-Agrees :
        (v : Value F) (r r' : W × (String ⊎ Items F))
        → Agrees r r'
        → Agrees (then_entry (ok_entry v) r) (then_entry (ok_entry v) r')
    then-Agrees v (w, inl error) r' h = tt
    then-Agrees v (w, inr out) r' (e, h) = (ap (then_entry (ok_entry v)) e, ((v, refl), h))

    call_one-Answers :
        (rpc : Rpc F W) (i n : ℕ) (params : Option (Fields F)) (rest : W → W × (String ⊎ Items F))
        (w : W) (m : Option String)
        → ((w' : W) → Answers n (rest w'))
        → Answers (n + 1) (call_one rpc false i params rest w m)
    unfolding call_one after_call
    call_one-Answers rpc i n params rest w none h = then-Answers n missing_entry (rest w) (h w)
    call_one-Answers rpc i n params rest w (some m) h = called (rpc.rpc_call m params w)
      where
        called : (r : W × (String ⊎ Value F)) → Answers (n + 1) (after_call false i m rest r)
        called (w', inr v) = then-Answers n (ok_entry v) (rest w') (h w')
        called (w', inl message) = then-Answers n (error_entry message m) (rest w') (h w')

    call_one-Agrees :
        (rpc : Rpc F W) (i : ℕ) (params : Option (Fields F))
        (rest rest' : W → W × (String ⊎ Items F)) (w : W) (m : Option String)
        → ((w' : W) → Agrees (rest w') (rest' w'))
        → Agrees (call_one rpc true i params rest w m) (call_one rpc false i params rest' w m)
    unfolding call_one after_call
    call_one-Agrees rpc i params rest rest' w none h = tt
    call_one-Agrees rpc i params rest rest' w (some m) h = called (rpc.rpc_call m params w)
      where
        called :
            (r : W × (String ⊎ Value F))
            → Agrees (after_call true i m rest r) (after_call false i m rest' r)
        called (w', inr v) = then-Agrees v (rest w') (rest' w') (h w')
        called (w', inl message) = tt

    -- Both, for the calls from the i-th on.
    abbrev Both : Rpc F W → ℕ → Items F → W → Type 0
    Both rpc i calls w =
        Answers (dicts calls) (call_each rpc false i calls w)
        × Agrees (call_each rpc true i calls w) (call_each rpc false i calls w)

    call_each-Both : (rpc : Rpc F W) (i : ℕ) (calls : Items F) (w : W) → Both rpc i calls w
    unfolding call_each count
    call_each-Both rpc i nil w = (refl, (refl, tt))
    call_each-Both rpc i (cons (dict c) calls) w = (
      call_one-Answers rpc i (dicts calls) (params_of c)
          (λ w'. call_each rpc false (suc i) calls w') w (named_method (get "method" c))
          (λ w'. (call_each-Both rpc (suc i) calls w').0),
      call_one-Agrees rpc i (params_of c) (λ w'. call_each rpc true (suc i) calls w')
          (λ w'. call_each rpc false (suc i) calls w') w (named_method (get "method" c))
          (λ w'. (call_each-Both rpc (suc i) calls w').1),
    )
    call_each-Both rpc i (cons null calls) w = call_each-Both rpc (suc i) calls w
    call_each-Both rpc i (cons (bool b) calls) w = call_each-Both rpc (suc i) calls w
    call_each-Both rpc i (cons (int n) calls) w = call_each-Both rpc (suc i) calls w
    call_each-Both rpc i (cons (float x) calls) w = call_each-Both rpc (suc i) calls w
    call_each-Both rpc i (cons (str s) calls) w = call_each-Both rpc (suc i) calls w
    call_each-Both rpc i (cons (list xs) calls) w = call_each-Both rpc (suc i) calls w

  -- Where the extension does not take batches: without stop_on_error the calls never raise, and there is
  -- an entry for each call that is a dict; with stop_on_error they either raise, or return the same and
  -- leave the same behind as without, and then all entries are results.
  pub rpc_call_many_stops :
      {W : Type 0} (fl : Floats F) (rpc : Rpc F W) (client : Option (ClientInfo F))
      (calls : Items F) (w : W)
      → supports fl "rpcBatch" client ≡ false
      → Answers (dicts calls) (rpc_call_many fl rpc client calls false w)
        × Agrees
            (rpc_call_many fl rpc client calls true w)
            (rpc_call_many fl rpc client calls false w)
  unfolding rpc_call_many count
  rpc_call_many_stops fl rpc client nil w h = (refl, (refl, tt))
  rpc_call_many_stops fl rpc client (cons c calls) w h =
      rw (h, rpc_call_many) (call_each-Both rpc 0 (cons c calls) w)
