-- ===== src/Examples/Codec/OfReport.antt =====
-- A written form of a report that is read back, in place of Python's JSON.
use ctc.Common.{ℕ, ◌≡◌, refl, ap, Option, none, some, List, []}
use ctc.Reports.Cycle.{Report, Fill, Winner, Winners}
use ctc.Examples.Codec.{
  Codec, nat_codec, pair_codec, via_codec, list_codec, text_codec, int_codec, option_codec,
}

abbrev pub fill_codec : Codec Fill
fill_codec =
    via_codec (pair_codec text_codec (pair_codec int_codec nat_codec))
      (λ p. some (record { who = p.0; amount = p.1.0; count = p.1.1 }))
      (λ f. (f.who, (f.amount, f.count))) (λ f. refl)

abbrev pub winner_codec : Codec Winner
winner_codec =
    via_codec (pair_codec (option_codec nat_codec) (pair_codec text_codec int_codec))
      (λ p. some (record { user_id = p.0; name = p.1.0; value = p.1.1 }))
      (λ w. (w.user_id, (w.name, w.value))) (λ w. refl)

abbrev pub winners_codec : Codec Winners
winners_codec =
    via_codec
      (pair_codec (pair_codec winner_codec winner_codec)
        (pair_codec winner_codec (option_codec winner_codec)))
      (λ p. some (record { generous = p.0.0; pro = p.0.1; noob = p.1.0; rotator = p.1.1 }))
      (λ w. ((w.generous, w.pro), (w.noob, w.rotator))) (λ w. refl)

abbrev pub report_codec : Codec Report
report_codec =
    via_codec
      (pair_codec (pair_codec nat_codec text_codec) (
        pair_codec
          (pair_codec (pair_codec (pair_codec int_codec int_codec) (pair_codec int_codec int_codec))
            (pair_codec (pair_codec int_codec int_codec)
              (pair_codec (pair_codec nat_codec nat_codec) (pair_codec nat_codec nat_codec))))
          (pair_codec (list_codec fill_codec) winners_codec)))
      (λ p. some (record {
        id = p.0.0;
        label = p.0.1;
        pledged = p.1.0.0.0.0;
        budget_total = p.1.0.0.0.1;
        used_total = p.1.0.0.1.0;
        donated = p.1.0.0.1.1;
        to_non_pat = p.1.0.1.0.0;
        to_pat = p.1.0.1.0.1;
        req_filled = p.1.0.1.1.0.0;
        req_total = p.1.0.1.1.0.1;
        req_pat = p.1.0.1.1.1.0;
        req_non_pat = p.1.0.1.1.1.1;
        fills = p.1.1.0;
        winners = p.1.1.1;
      }))
      (λ r. (
        (r.id, r.label),
        (
          (
            ((r.pledged, r.budget_total), (r.used_total, r.donated)),
            ((r.to_non_pat, r.to_pat), ((r.req_filled, r.req_total), (r.req_pat, r.req_non_pat))),
          ),
          (r.fills, r.winners),
        ),
      ))
      (λ r. refl)

-- The reader of a whole report, and the writer.
abbrev decoded_report : Option (Report × List ℕ) → Option Report
decoded_report none = none
decoded_report (some (r, _)) = some r

abbrev pub loads_report : List ℕ → Option Report
loads_report k = decoded_report (report_codec.read k)

abbrev pub dumps_report : Report → List ℕ
dumps_report r = report_codec.write r []

pub loads_report-dumps_report : (r : Report) → loads_report (dumps_report r) ≡ some r
loads_report-dumps_report r = ap decoded_report (report_codec.law r [])
