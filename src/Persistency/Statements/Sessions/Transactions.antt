-- ===== src/Persistency/Statements/Sessions/Transactions.antt =====
-- The calls of a run, taken apart into set-ups and transactions.
use mathlib.Core.List.{append-nil, append_assoc, map-append}
use rbase.Base.{◌≡◌, refl, sym, ap, ◌∙◌, Bool, true, false, List, [], ◌∷◌, ◌++◌, map}
use rbase.Persistency.Database.{Record}
use rbase.Persistency.Statements.{
  SqlCall, begin_transaction, commit, insert_record_call, round_calls,
}

-- A set-up of the database, or one transaction with the records that it holds.
pub data Part : Type 0 where
  sets_up : Part
  round : List Record → Part

unfoldable pub calls_of : List SqlCall → List Part → List SqlCall
unfolding round_calls
calls_of c [] = []
calls_of c (sets_up ∷ ps) = c ++ calls_of c ps
calls_of c (round rs ∷ ps) = round_calls rs ++ calls_of c ps

abbrev pub records_of : List Part → List Record
records_of [] = []
records_of (sets_up ∷ ps) = records_of ps
records_of (round rs ∷ ps) = rs ++ records_of ps

calls_of-append :
    (c : List SqlCall) (ps qs : List Part) → calls_of c (ps ++ qs) ≡ calls_of c ps ++ calls_of c qs
unfolding calls_of
calls_of-append c [] qs = refl
calls_of-append c (sets_up ∷ ps) qs =
    ap (◌++◌ c) (calls_of-append c ps qs) ∙ sym (append_assoc c (calls_of c ps) (calls_of c qs))
calls_of-append c (round rs ∷ ps) qs =
    ap (◌++◌ (round_calls rs)) (calls_of-append c ps qs)
    ∙ sym (append_assoc (round_calls rs) (calls_of c ps) (calls_of c qs))

records_of-append : (ps qs : List Part) → records_of (ps ++ qs) ≡ records_of ps ++ records_of qs
records_of-append [] qs = refl
records_of-append (sets_up ∷ ps) qs = records_of-append ps qs
records_of-append (round rs ∷ ps) qs =
    ap (◌++◌ rs) (records_of-append ps qs) ∙ sym (append_assoc rs (records_of ps) (records_of qs))

-- The calls of a transaction that is not committed yet.
abbrev pub open_calls : Bool → List Record → List SqlCall
open_calls false rs = []
open_calls true rs = begin_transaction ∷ map insert_record_call rs

abbrev pub open_records : Bool → List Record → List Record
open_records false rs = []
open_records true rs = rs

-- The calls are those of whole parts, and of an open transaction while the worker is writing; the
-- records that were written are those of the parts and of the open transaction.
pub record InParts (c l : List SqlCall) (b : Bool) (written : List Record) : Type 0 where
  pub parts : List Part
  pub pending : List Record
  pub calls_split : l ≡ calls_of c parts ++ open_calls b pending
  pub records_split : written ≡ records_of parts ++ open_records b pending

module _ (c : List SqlCall) where
  pub opens :
      (l : List SqlCall) (d : List Record)
      → InParts c l false d
      → InParts c (l ++ begin_transaction ∷ []) true d
  opens l d i = record {
    parts = i.parts;
    pending = [];
    calls_split =
        ap (λ x. x ++ begin_transaction ∷ []) (i.calls_split ∙ append-nil (calls_of c i.parts));
    records_split = i.records_split;
  }

  pub adds :
      (l : List SqlCall) (d : List Record) (r : Record)
      → InParts c l true d
      → InParts c (l ++ insert_record_call r ∷ []) true (d ++ r ∷ [])
  adds l d r i = record {
    parts = i.parts;
    pending = i.pending ++ r ∷ [];
    calls_split =
        ap (λ x. x ++ insert_record_call r ∷ []) i.calls_split
        ∙ append_assoc (calls_of c i.parts) (begin_transaction ∷ map insert_record_call i.pending)
            (insert_record_call r ∷ [])
        ∙ ap (λ x. calls_of c i.parts ++ begin_transaction ∷ x)
            (sym (map-append insert_record_call i.pending (r ∷ [])));
    records_split =
        ap (λ x. x ++ r ∷ []) i.records_split
        ∙ append_assoc (records_of i.parts) i.pending (r ∷ []);
  }

  pub closes :
      (l : List SqlCall) (d : List Record)
      → InParts c l true d
      → InParts c (l ++ commit ∷ []) false d
  unfolding round_calls calls_of
  closes l d i = record {
    parts = i.parts ++ round i.pending ∷ [];
    pending = [];
    calls_split =
        ap (λ x. x ++ commit ∷ []) i.calls_split
        ∙ append_assoc (calls_of c i.parts) (begin_transaction ∷ map insert_record_call i.pending)
            (commit ∷ [])
        ∙ ap (◌++◌ (calls_of c i.parts)) (sym (append-nil (round_calls i.pending)))
        ∙ sym (calls_of-append c i.parts (round i.pending ∷ []))
        ∙ sym (append-nil (calls_of c (i.parts ++ round i.pending ∷ [])));
    records_split =
        i.records_split
        ∙ ap (◌++◌ (records_of i.parts)) (sym (append-nil i.pending))
        ∙ sym (records_of-append i.parts (round i.pending ∷ []))
        ∙ sym (append-nil (records_of (i.parts ++ round i.pending ∷ [])));
  }

  pub prepared :
      (l : List SqlCall) (d : List Record) → InParts c l false d → InParts c (l ++ c) false d
  unfolding calls_of
  prepared l d i = record {
    parts = i.parts ++ sets_up ∷ [];
    pending = [];
    calls_split =
        ap (λ x. x ++ c) (i.calls_split ∙ append-nil (calls_of c i.parts))
        ∙ ap (◌++◌ (calls_of c i.parts)) (sym (append-nil c))
        ∙ sym (calls_of-append c i.parts (sets_up ∷ []))
        ∙ sym (append-nil (calls_of c (i.parts ++ sets_up ∷ [])));
    records_split =
        i.records_split
        ∙ sym (records_of-append i.parts (sets_up ∷ []))
        ∙ sym (append-nil (records_of (i.parts ++ sets_up ∷ [])));
  }
