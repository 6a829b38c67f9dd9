-- ===== src/Gateway/Batch.antt =====
-- Calls that are made together: `rpc_call_many` and `cdp_send_many`.
pub mod Stops
use Prim.Native.String
use browser.Prelude.{
  ℕ, suc, String, ◌⊎◌, inl, inr, Bool, true, false, not, Option, none, some, ◌==◌, if◌then◌else◌,
}
use browser.Text.{strip, show_ℕ}
use browser.Value.{Value, bool, str, list, dict, Items, nil, cons, Fields, end, field, get}
use browser.Flow.Floats.{Floats, is_truthy}
use browser.Gateway.{ClientInfo, dict_or_none}

-- What a batch needs of the gateway: a call, with what it does to the world, and its result or the
-- text of the error that it raises.
pub record Rpc (F W : Type 0) : Type 0 where
  pub rpc_call : String → Option (Fields F) → W → W × (String ⊎ Value F)

abbrev pub failed_at : ℕ → String → String
failed_at i what =
    String.◌++◌ "rpc_call_many failed at " (String.◌++◌ (show_ℕ i) (String.◌++◌ ": " what))

module _ {F : Type 0} where
  -- The method, if it is a text that is more than space.
  abbrev pub named_method : Option (Value F) → Option String
  named_method (some (str m)) = if strip m == "" then none else some m
  named_method _ = none

  -- params that are a dict
  abbrev pub params_of : Fields F → Option (Fields F)
  params_of call = dict_or_none (get "params" call)

  abbrev pub ok_entry : Value F → Value F
  ok_entry v = dict (field "ok" (bool true) (field "result" v end))

  abbrev pub missing_entry : Value F
  missing_entry = dict (field "ok" (bool false) (field "error" (str "missing method") end))

  abbrev pub error_entry : String → String → Value F
  error_entry message method =
      dict (field "ok" (bool false) (field "error" (str message) (field "method" (str method) end)))

  abbrev pub items_or_nil : Value F → Items F
  items_or_nil (list xs) = xs
  items_or_nil _ = nil

  module _ {W : Type 0} where
    abbrev pub then_entry : Value F → W × (String ⊎ Items F) → W × (String ⊎ Items F)
    then_entry v (w, inl error) = (w, inl error)
    then_entry v (w, inr out) = (w, inr (cons v out))

    abbrev pub items_reply : W × (String ⊎ Value F) → W × (String ⊎ Items F)
    items_reply (w, inl error) = (w, inl error)
    items_reply (w, inr v) = (w, inr (items_or_nil v))

    -- After the call of the method m, what follows goes on with the world that it leaves.
    unfoldable pub after_call :
        Bool
        → ℕ
        → String
        → (W → W × (String ⊎ Items F))
        → W × (String ⊎ Value F)
        → W × (String ⊎ Items F)
    after_call stop i m rest (w, inr v) = then_entry (ok_entry v) (rest w)
    after_call true i m rest (w, inl message) =
        (w, inl (failed_at i (String.◌++◌ m (String.◌++◌ ": " message))))
    after_call false i m rest (w, inl message) = then_entry (error_entry message m) (rest w)

    unfoldable pub call_one :
        Rpc F W
        → Bool
        → ℕ
        → Option (Fields F)
        → (W → W × (String ⊎ Items F))
        → W
        → Option String
        → W × (String ⊎ Items F)
    call_one rpc true i params rest w none = (w, inl (failed_at i "missing method"))
    call_one rpc false i params rest w none = then_entry missing_entry (rest w)
    call_one rpc stop i params rest w (some m) = after_call stop i m rest (rpc.rpc_call m params w)

    unfoldable pub call_each : Rpc F W → Bool → ℕ → Items F → W → W × (String ⊎ Items F)
    call_each rpc stop i nil w = (w, inr nil)
    call_each rpc stop i (cons (dict c) calls) w =
        call_one rpc stop i (params_of c) (λ w'. call_each rpc stop (suc i) calls w') w
          (named_method (get "method" c))
    call_each rpc stop i (cons _ calls) w = call_each rpc stop (suc i) calls w

  -- supports_rpc_batch and supports_cdp_send_many, by the key of the capability
  unfoldable pub supports : Floats F → String → Option (ClientInfo F) → Bool
  supports fl key none = false
  supports fl key (some client) = elim client.capabilities [
    | none ↦ false
    | some caps ↦ is_truthy fl (get key caps)
  ]

  unfoldable pub rpc_call_many :
      {W : Type 0}
      → Floats F
      → Rpc F W
      → Option (ClientInfo F)
      → Items F
      → Bool
      → W
      → W × (String ⊎ Items F)
  rpc_call_many fl rpc client nil stop w = (w, inr nil)
  rpc_call_many fl rpc client (cons c calls) stop w =
      if supports fl "rpcBatch" client
      then items_reply (
          rpc.rpc_call "rpc.batch"
            (some (field "calls" (list (cons c calls)) (field "stopOnError" (bool stop) end))) w)
      else call_each rpc stop 0 (cons c calls) w

  -- The params are sent along if there are some.
  abbrev pub with_params : Option (Fields F) → Fields F
  with_params (some (field k v fs)) = field "params" (dict (field k v fs)) end
  with_params _ = end

  abbrev pub dict_reply : {W : Type 0} → W × (String ⊎ Value F) → W × (String ⊎ Value F)
  dict_reply (w, inl error) = (w, inl error)
  dict_reply (w, inr (dict d)) = (w, inr (dict d))
  dict_reply (w, inr v) = (w, inr (dict end))

  unfoldable pub cdp_send :
      {W : Type 0} → Rpc F W → String → String → Option (Fields F) → W → W × (String ⊎ Value F)
  cdp_send rpc tab_id method params w =
      if strip tab_id == ""
      then (w, inl "tab_id is required for CDP send")
      else if strip method == ""
      then (w, inl "CDP method is required")
      else dict_reply (
          rpc.rpc_call "cdp.send"
            (some (
              field "tabId" (str (strip tab_id))
                (field "method" (str method) (with_params params))))
            w)

  -- The pauses between the commands change nothing.
  unfoldable pub send_each : {W : Type 0} → Rpc F W → String → Items F → W → W × (String ⊎ Items F)
  send_each rpc tab_id nil w = (w, inr nil)
  send_each rpc tab_id (cons (dict c) commands) w = elim (named_method (get "method" c)) [
    | none ↦ (w, inl "cdp_send_many: each command must include a non-empty 'method'")
    | some m ↦
        let (w', r) = cdp_send rpc tab_id m (params_of c) w in
        elim r [
          | inr v ↦ then_entry v (send_each rpc tab_id commands w')
          | inl message ↦ (w', inl message)
        ]
  ]
  send_each rpc tab_id (cons _ commands) w = send_each rpc tab_id commands w

  unfoldable pub cdp_send_many :
      {W : Type 0}
      → Floats F
      → Rpc F W
      → Option (ClientInfo F)
      → String
      → Items F
      → Bool
      → W
      → W × (String ⊎ Items F)
  cdp_send_many fl rpc client tab_id commands stop w =
      if strip tab_id == "" then (w, inl "tab_id is required for CDP sendMany") else elim commands [
        | nil ↦ (w, inr nil)
        | cons c cs ↦
            if not (supports fl "cdpSendMany" client)
            then send_each rpc (strip tab_id) (cons c cs) w
            else items_reply (
                rpc.rpc_call "cdp.sendMany"
                  (some (
                    field "tabId" (str (strip tab_id))
                      (field "commands" (list (cons c cs)) (field "stopOnError" (bool stop) end))))
                  w)
      ]
