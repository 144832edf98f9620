-- ===== src/Panels/Haskell.antt =====
-- portal-svelte/src/lib/components/panels/HaskellPanel.svelte: the option pricer in Haskell.
use polyglot_infinity.Prelude.{
  ℕ, ◌≡◌, refl, Bool, true, false, not, Option, some, List, [], ◌∷◌, arith, codes,
}
use polyglot_infinity.Js.Value.{Json, null, obj, read}
use polyglot_infinity.Js.Completion.{Completion, ok, throw, ◌>>=◌}
use polyglot_infinity.Js.Spread.{set_field, put_field, spread, read_index}
use polyglot_infinity.Js.Async.{Async, look}
use polyglot_infinity.Js.Async.Laws.{Keeps, look-IsQuiet}
use polyglot_infinity.Panels.Machine.{Panel}
use polyglot_infinity.Panels.Machine.Laws.{IsDown, Starts, IsLawful}
use polyglot_infinity.Panels.Setting.{Setting, api}
use polyglot_infinity.Panels.Shape.{error_value, with_loading, fetch_all_or}
use polyglot_infinity.Panels.Shape.Laws.{with_loading-Starts, fetch_all_or-IsQuiet}

module _ {Num : Type 0} where
  -- What `runHaskell` makes of the three bodies.
  unfoldable pub haskell_combine : List (Json Num) → Completion (Json Num)
  unfolding put_field set_field spread read read_index
  haskell_combine (bs ∷ mc ∷ stream ∷ []) = do
    v0 ← read mc (codes "annualized_return")
    v1 ← read mc (codes "annualized_vol")
    v2 ← read mc (codes "var_95")
    v3 ← read mc (codes "cvar_95")
    v4 ← read mc (codes "avg_final_price")
    v5 ← read stream (codes "prices")
    v6 ← read stream (codes "ewma_vol")
    v7 ← read stream (codes "drawdowns")
    v8 ← read stream (codes "final_price")
    v9 ← read stream (codes "sharpe_ratio")
    v10 ← read stream (codes "max_drawdown")
    v11 ← read stream (codes "n")
    ok (
        obj (
          put_field (codes "stream_n") v11 (
            put_field (codes "stream_mdd") v10 (
              put_field (codes "stream_sharpe") v9 (
                put_field (codes "stream_final") v8 (
                  put_field (codes "stream_drawdowns") v7 (
                    put_field (codes "stream_ewma_vol") v6 (
                      put_field (codes "stream_prices") v5 (
                        put_field (codes "mc_avg_final") v4 (
                          put_field (codes "mc_cvar95") v3 (
                            put_field (codes "mc_var95") v2 (
                              put_field (codes "mc_annualized_vol") v1 (
                                put_field (codes "mc_annualized_return") v0 (spread bs))))))))))))))
  haskell_combine _ = throw []

pub record HaskellState (Num : Type 0) : Type 0 where
  pub haskell_data : Json Num
  pub haskell_loading : Bool
  pub bs_s : Num
  pub bs_k : Num
  pub bs_r : Num
  pub bs_sigma : Num
  pub bs_t : Num
  pub mc_n : Num

-- The buttons.
pub data HaskellAction : Type 0 where
  on_run_haskell : HaskellAction

-- The bound inputs.
pub data HaskellEdit (Num : Type 0) : Type 0 where
  bind_bs_s : Num → HaskellEdit Num
  bind_bs_k : Num → HaskellEdit Num
  bind_bs_r : Num → HaskellEdit Num
  bind_bs_sigma : Num → HaskellEdit Num
  bind_bs_t : Num → HaskellEdit Num
  bind_mc_n : Num → HaskellEdit Num

module _ {Num : Type 0} (js : Setting Num) where
  abbrev pub haskell_initial : HaskellState Num
  haskell_initial = record {
    haskell_data = null;
    haskell_loading = false;
    bs_s = js.literal (codes "100");
    bs_k = js.literal (codes "100");
    bs_r = js.literal (codes "0.05");
    bs_sigma = js.literal (codes "0.2");
    bs_t = js.literal (codes "1.0");
    mc_n = js.literal (codes "500");
  }

  unfoldable pub run_haskell : Async Num (HaskellState Num) (Unit {0})
  run_haskell =
      with_loading (λ b s. record s { haskell_loading = b }) (λ s. record s { haskell_data = null })
        (look (λ s.
          fetch_all_or (λ v s. record s { haskell_data = v })
            (api js (
                codes "/api/haskell/blackscholes?s="
                ∷ js.show s.bs_s
                ∷ codes "&k="
                ∷ js.show s.bs_k
                ∷ codes "&r="
                ∷ js.show s.bs_r
                ∷ codes "&sigma="
                ∷ js.show s.bs_sigma
                ∷ codes "&t="
                ∷ js.show s.bs_t
                ∷ [])
              ∷ api js (
                  codes "/api/haskell/montecarlo?s="
                  ∷ js.show s.bs_s
                  ∷ codes "&vol="
                  ∷ js.show s.bs_sigma
                  ∷ codes "&mu="
                  ∷ js.show (js.add s.bs_r (js.literal (codes "0.03")))
                  ∷ codes "&n="
                  ∷ js.show s.mc_n
                  ∷ codes "&days=252"
                  ∷ [])
              ∷ api js (
                  codes "/api/haskell/stream?s="
                  ∷ js.show s.bs_s
                  ∷ codes "&mu="
                  ∷ js.show (js.add s.bs_r (js.literal (codes "0.03")))
                  ∷ codes "&sigma="
                  ∷ js.show s.bs_sigma
                  ∷ codes "&n=60&seed=42"
                  ∷ [])
              ∷ [])
            haskell_combine (codes "Haskell 프라이서 오프라인")))
        (λ s. record s { haskell_data = error_value (codes "Haskell 서버 접속 불가 (:8006)") })

  abbrev haskell_flag_of : HaskellAction → Option ℕ
  haskell_flag_of on_run_haskell = some 0

  -- The `disabled` attributes.
  abbrev pub haskell_enabled : HaskellAction → HaskellState Num → Bool
  haskell_enabled on_run_haskell s = not s.haskell_loading

  abbrev haskell_body : HaskellAction → Async Num (HaskellState Num) (Unit {0})
  haskell_body on_run_haskell = run_haskell

  abbrev haskell_edit : HaskellEdit Num → HaskellState Num → HaskellState Num
  haskell_edit (bind_bs_s x) s = record s { bs_s = x }
  haskell_edit (bind_bs_k x) s = record s { bs_k = x }
  haskell_edit (bind_bs_r x) s = record s { bs_r = x }
  haskell_edit (bind_bs_sigma x) s = record s { bs_sigma = x }
  haskell_edit (bind_bs_t x) s = record s { bs_t = x }
  haskell_edit (bind_mc_n x) s = record s { mc_n = x }

  abbrev pub haskell_flags : HaskellState Num → List Bool
  haskell_flags s = s.haskell_loading ∷ []

  abbrev pub haskell_panel : Panel Num
  haskell_panel = record {
    State = HaskellState Num;
    Action = HaskellAction;
    Edit = HaskellEdit Num;
    initial = haskell_initial;
    flags = haskell_flags;
    flag_of = haskell_flag_of;
    enabled = haskell_enabled;
    body = haskell_body;
    edit = haskell_edit;
  }

  haskell-disabled :
      (a : HaskellAction) (s : HaskellState Num)
      → haskell_enabled a s ≡ true
      → IsDown (haskell_flag_of a) (haskell_flags s)
  haskell-disabled on_run_haskell s e = (ground arith, omega arith)

  haskell-edits : (e : HaskellEdit Num) → Keeps haskell_flags (haskell_edit e)
  haskell-edits (bind_bs_s x) s = refl
  haskell-edits (bind_bs_k x) s = refl
  haskell-edits (bind_bs_r x) s = refl
  haskell-edits (bind_bs_sigma x) s = refl
  haskell-edits (bind_bs_t x) s = refl
  haskell-edits (bind_mc_n x) s = refl

  haskell-Starts : (a : HaskellAction) → Starts haskell_flags (haskell_flag_of a) (haskell_body a)
  unfolding run_haskell
  haskell-Starts on_run_haskell =
      with_loading-Starts Num haskell_flags 0 _ _ _ _ (λ b s. refl) (λ s. refl)
        (look-IsQuiet haskell_flags _
          (λ s. fetch_all_or-IsQuiet Num haskell_flags _ _ _ _ (λ v s. refl)))
        (λ s. refl)

  pub haskell_panel-IsLawful : IsLawful haskell_panel
  haskell_panel-IsLawful = record {
    disabled = haskell-disabled;
    idle = (refl, tt);
    edits = haskell-edits;
    starts = haskell-Starts;
  }
