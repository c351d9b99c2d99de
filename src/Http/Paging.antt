-- ===== src/Http/Paging.antt =====
-- onReqLog writes one page.
use wacs.Prelude.{
  ℕ, zero, suc, ◌+◌, ◌%◌, ◌^◌, ◌<◌, ◌≤◌, ◌≡◌, refl, ap, ◌∙◌, sym, true, false, Option, List, [],
  ◌∷◌, ◌++◌, take, drop, arith, length,
}
use wacs.Layout.{Bytes, LogKey, LogData}
use wacs.Db.Query.{feed}
use wacs.Http.{ReqEnv, record_json, on_req_log, on_req_log_count}

-- The texts of the records, one behind the other.
unfoldable pub texts : List (LogKey × Option LogData) → Bytes
unfolding record_json
texts [] = []
texts ((k, d) ∷ rs) = record_json k d ++ texts rs

append_nil : (b : Bytes) → b ++ [] ≡ b
append_nil [] = refl
append_nil (x ∷ b) = ap (λ t. x ∷ t) (append_nil b)

append_assoc : (a b c : Bytes) → (a ++ b) ++ c ≡ a ++ (b ++ c)
append_assoc [] b c = refl
append_assoc (x ∷ a) b c = ap (λ t. x ∷ t) (append_assoc a b c)

-- What onReqLog does before, on and behind the page.
module _ (req : ReqEnv) (k : LogKey) (d : Option LogData) where
  before_page :
      req.position < req.offset
      → req.offset < 2 ^ 64
      → on_req_log req k d ≡ (false, record req { position = suc req.position })
  unfolding on_req_log
  before_page h b = ground (arith, h, b)

  on_page :
      req.offset ≤ req.position
      → req.position < req.offset + req.count
      → req.offset + req.count < 2 ^ 64
      → on_req_log req k d ≡ (
        false,
        record req { position = suc req.position; retval = req.retval ++ record_json k d },
      )
  unfolding on_req_log
  on_page h l b = ground (arith, h, l, b)

  behind_page :
      req.position ≡ req.offset + req.count
      → req.offset + req.count < 2 ^ 64
      → on_req_log req k d ≡ (true, req)
  unfolding on_req_log
  behind_page h b = ground (arith, h, b)

feed_goes_on :
    (req next : ReqEnv) (k : LogKey) (d : Option LogData) (rs : List (LogKey × Option LogData))
    → on_req_log req k d ≡ (false, next)
    → feed on_req_log ((k, d) ∷ rs) req ≡ feed on_req_log rs next
unfolding feed
feed_goes_on req next k d rs h = ground (arith, h)

feed_stops :
    (req : ReqEnv) (k : LogKey) (d : Option LogData) (rs : List (LogKey × Option LogData))
    → on_req_log req k d ≡ (true, req)
    → feed on_req_log ((k, d) ∷ rs) req ≡ req
unfolding feed
feed_stops req k d rs h = ground (arith, h)

feed_nil : (req : ReqEnv) → (feed on_req_log [] req).retval ≡ req.retval ++ []
unfolding feed
feed_nil req = sym (append_nil req.retval)

texts_cons :
    (k : LogKey) (d : Option LogData) (rs : List (LogKey × Option LogData))
    → texts ((k, d) ∷ rs) ≡ record_json k d ++ texts rs
unfolding texts
texts_cons k d rs = refl

texts_nil : texts [] ≡ []
unfolding texts
texts_nil = refl

take_nil : (n : ℕ) → ◌≡◌ {A = List (LogKey × Option LogData)} (take n []) []
take_nil zero = refl
take_nil (suc n) = refl

shows :
    (m : ℕ) (rs : List (LogKey × Option LogData)) (req : ReqEnv)
    → req.offset ≤ req.position
    → req.position + m ≡ req.offset + req.count
    → req.offset + req.count < 2 ^ 64
    → (feed on_req_log rs req).retval ≡ req.retval ++ texts (take m rs)
shows zero [] req h e b = feed_nil req ∙ ap (λ t. req.retval ++ t) (sym texts_nil)
shows (suc m) [] req h e b = feed_nil req ∙ ap (λ t. req.retval ++ t) (sym texts_nil)
shows zero ((k, d) ∷ rs) req h e b =
    ap (λ (r : ReqEnv). r.retval) (feed_stops req k d rs (behind_page req k d (omega (arith, e)) b))
    ∙ sym (append_nil req.retval)
    ∙ ap (λ t. req.retval ++ t) (sym texts_nil)
shows (suc m) ((k, d) ∷ rs) req h e b =
    let req' : ReqEnv = record req {
      position = suc req.position;
      retval = req.retval ++ record_json k d;
    } in
    ap (λ (r : ReqEnv). r.retval)
      (feed_goes_on req req' k d rs (on_page req k d h (omega (arith, e)) b))
    ∙ shows m rs req' (omega (arith, h)) (omega (arith, e)) b
    ∙ append_assoc req.retval (record_json k d) (texts (take m rs))
    ∙ ap (λ t. req.retval ++ t) (sym (texts_cons k d (take m rs)))

skips :
    (n : ℕ) (rs : List (LogKey × Option LogData)) (req : ReqEnv)
    → req.position + n ≡ req.offset
    → req.offset + req.count < 2 ^ 64
    → (feed on_req_log rs req).retval ≡ req.retval ++ texts (take req.count (drop n rs))
skips zero rs req e b = shows req.count rs req (omega (arith, e)) (omega (arith, e)) b
skips (suc n) [] req e b =
    feed_nil req ∙ ap (λ t. req.retval ++ t) (sym (ap texts (take_nil req.count) ∙ texts_nil))
skips (suc n) ((k, d) ∷ rs) req e b =
    let req' : ReqEnv = record req { position = suc req.position } in
    ap (λ (r : ReqEnv). r.retval)
      (feed_goes_on req req' k d rs (before_page req k d (omega (arith, e)) (omega (arith, b))))
    ∙ skips n rs req' (omega (arith, e)) b

-- From position 0 and without a wrap at 64 bits, onReqLog writes the texts of exactly the `count`
-- records behind the first `offset` ones, in order.
pub feed-on_req_log :
    (rs : List (LogKey × Option LogData)) (req : ReqEnv)
    → req.position ≡ 0
    → req.offset + req.count < 2 ^ 64
    → (feed on_req_log rs req).retval ≡ req.retval ++ texts (take req.count (drop req.offset rs))
feed-on_req_log rs req e b = skips req.offset rs req (omega (arith, e)) b

-- onReqLogCount adds the number of records to its sum, modulo 2^32.
pub feed-on_req_log_count :
    (rs : List (LogKey × Option LogData)) (req : ReqEnv)
    → (feed on_req_log_count rs req).sum % 2 ^ 32 ≡ (req.sum + length rs) % 2 ^ 32
unfolding feed on_req_log_count
feed-on_req_log_count [] req = omega arith
feed-on_req_log_count ((k, d) ∷ rs) req =
    omega (arith, feed-on_req_log_count rs (record req { sum = (req.sum + 1) % 2 ^ 32 }))
