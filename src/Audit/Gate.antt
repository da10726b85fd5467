-- ===== src/Audit/Gate.antt =====
-- src/risk/pre_trade_gate.py: `PreTradeGate`, which leaves a row of the audit log at each decision.
use trading_os.Common.{
  ◌≡◌, refl, sym, ◌∙◌, ap, arith, String, Bool, true, false, not, ◌&&◌, Option, none, some, [], ◌∷◌,
  ◌++◌, if◌then◌else◌,
}
use trading_os.Common.Dict.{Dict, lookup}
use trading_os.Common.Effects.{ok, Method, pure, ◌>>=◌, bind_ok}
use trading_os.Float.{Float, ◌<=F◌}
use trading_os.Audit.Chain.{Json, IsJson, AuditError, AuditLog, append, verify_chain}
use trading_os.Audit.Intact.{append-Extends, append_lem, added}

-- The limits that the gate reads.
pub record GateLimits (F : Type 0) : Type 0 where
  pub max_var_daily : F
  pub max_sector_exposure_pct : F

-- The reason, a str.
pub record GateDecision : Type 0 where
  pub approved : Bool
  pub reason : String

-- How a float, a bool and a dict are put in a row.
pub record RowValues (F J : Type 0) : Type 0 where
  pub number : F → J
  pub flag : Bool → J
  pub dict : Dict J → J

module _ {F : Type 0} ⦃fl : Float F⦄ where
  abbrev pub at_cap : F → Option F → Bool
  at_cap cap none = false
  at_cap cap (some exposure) = cap <=F exposure

  unfoldable pub decide : GateLimits F → F → Option F → GateDecision
  decide limits var_95 sector =
      if limits.max_var_daily <=F var_95
      then record { approved = false; reason = "var_at_limit" }
      else if at_cap limits.max_sector_exposure_pct sector
      then record { approved = false; reason = "sector_exposure_cap" }
      else record { approved = true; reason = "approved" }

  module _ {J : Type 0} ⦃js : Json J⦄ where
    open js use {text}

    abbrev pub gate_row : RowValues F J → Dict J → F → GateDecision → Dict J
    gate_row values order var_95 d =
        ("type", text "pre_trade_gate")
        ∷ ("order", values.dict order)
        ∷ ("var_95", values.number var_95)
        ∷ ("approved", values.flag d.approved)
        ∷ ("reason", text d.reason)
        ∷ []

    unfoldable pub check :
        RowValues F J
        → GateLimits F
        → J
        → Dict J
        → F
        → Option F
        → Method (AuditLog J) AuditError GateDecision
    unfolding append decide
    check values limits now order var_95 sector =
        let d = decide limits var_95 sector in
        append now (gate_row values order var_95 d) >>= λ _. pure d

module _ {F J : Type 0} ⦃fl : Float F⦄ ⦃js : Json J⦄ where
  -- A new row at the end of a log tells of a decision.
  pub record Tells (values : RowValues F J) (d : GateDecision) (order : Dict J) (row : Dict J)
      : Type 0 where
    pub approved : lookup "approved" row ≡ some (values.flag d.approved)
    pub reason : lookup "reason" row ≡ some (js.text d.reason)
    pub its_order : lookup "order" row ≡ some (values.dict order)

  gate_row-Tells :
      (values : RowValues F J) (now : J) (order : Dict J) (var_95 : F) (d : GateDecision)
      (log : AuditLog J)
      → Tells values d order (added now (gate_row values order var_95 d) log)
  gate_row-Tells values now order var_95 d log = record {
    approved = refl;
    reason = refl;
    its_order = refl;
  }

decide_lem :
    {F : Type 0} ⦃fl : Float F⦄ (limits : GateLimits F) (var_95 : F) (sector : Option F)
    → (decide limits var_95 sector).approved ≡ (
        not (limits.max_var_daily <=F var_95) && not (at_cap limits.max_sector_exposure_pct sector))
unfolding decide
decide_lem limits var_95 sector = ground arith

-- On a log whose chain verifies, the gate's check does not raise: it returns its decision and leaves
-- the log, still verified, with exactly one more row, which carries the order, the verdict and the
-- reason that were returned, an approval as well as a refusal. It approves exactly if the value at
-- risk is not at its limit and the exposure of the sector, if one is given, is not at its cap.
pub check_is_recorded :
    {F J : Type 0} ⦃fl : Float F⦄ ⦃js : Json J⦄ ⦃lawful : IsJson J⦄ (values : RowValues F J)
    (limits : GateLimits F) (now : J) (order : Dict J) (var_95 : F) (sector : Option F)
    (log : AuditLog J)
    → verify_chain log ≡ true
    → (d : GateDecision) × ((row : Dict J) × ((check values limits now order var_95 sector log
            ≡ (ok d, log ++ (row ∷ [])))
          × (verify_chain (log ++ (row ∷ [])) ≡ true)
          × Tells values d order row
          × (d.approved ≡ (
              not (limits.max_var_daily <=F var_95)
              && not (at_cap limits.max_sector_exposure_pct sector)))))
unfolding check decide
check_is_recorded values limits now order var_95 sector log h =
    let d = decide limits var_95 sector in
    let row = gate_row values order var_95 d in
    (
      d,
      (
        added now row log,
        (
          bind_ok (append now row) (λ _. pure d) {s = log} (append_lem now row log h),
          ap (λ p. verify_chain p.1) (sym (append_lem now row log h))
              ∙ (append-Extends now row log h).0,
          gate_row-Tells values now order var_95 d log,
          decide_lem limits var_95 sector,
        ),
      ),
    )
