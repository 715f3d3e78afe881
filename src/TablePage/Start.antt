-- ===== src/TablePage/Start.antt =====
-- `Init` of storage/access/table_page.go: a fresh page.
use samehada_db.Base.{ℕ, returns, ◌≡◌, refl, arith, inr, ◌∙◌}
use samehada_db.Ids.{invalid_id}
use samehada_db.Bytes.{le32}
use samehada_db.Bytes.Slices.{length-copy_at}
use samehada_db.Bytes.Words.{word32-copy_self, word32-copy_ne}
use samehada_db.Log.{new_log_record_new_page, new_page_type}
use samehada_db.Log.Append.{IsReady}
use samehada_db.Page.{
  Page, copy_header, set_page_id, set_prev_page_id, set_next_page_id, set_tuple_count,
  set_free_space_pointer,
}
use samehada_db.Page.Slots.{fsp_of, count_of, IsPage, patch}
use samehada_db.TablePage.{Env, init}
use samehada_db.TablePage.View.{stored, free, IsSound}
use samehada_db.TablePage.Logging.{write_log_record_total}

module _ (q : Page) (page_id prev_page_id : ℕ) (len : IsPage q) where
  abbrev a₁ : Page
  a₁ = patch q 0 (le32 page_id)

  abbrev a₂ : Page
  a₂ = patch a₁ 8 (le32 prev_page_id)

  abbrev a₃ : Page
  a₃ = patch a₂ 12 (le32 invalid_id)

  abbrev a₄ : Page
  a₄ = patch a₃ 20 (le32 0)

  abbrev blank : Page
  blank = patch a₄ 16 (le32 4096)

  len₃ : IsPage a₃
  len₃ =
      length-copy_at 12 (le32 invalid_id) a₂.bytes
      ∙ length-copy_at 8 (le32 prev_page_id) a₁.bytes
      ∙ length-copy_at 0 (le32 page_id) q.bytes
      ∙ len

  len₄ : IsPage a₄
  len₄ = length-copy_at 20 (le32 0) a₃.bytes ∙ len₃

  count-blank : count_of blank ≡ 0
  unfolding le32
  count-blank =
      word32-copy_ne 16 (le32 4096) a₄.bytes 20 (inr (omega arith))
      ∙ word32-copy_self 20 0 a₃.bytes (omega (arith, len₃))

  fsp-blank : fsp_of blank ≡ 4096
  fsp-blank = word32-copy_self 16 4096 a₄.bytes (omega (arith, len₄))

  IsSound-blank : IsSound blank
  IsSound-blank = record {
    page = length-copy_at 16 (le32 4096) a₄.bytes ∙ len₄;
    slots_fit = omega (arith, count-blank, fsp-blank);
    pointer_fits = omega (arith, fsp-blank);
    words = λ i h. absurd (omega (arith, count-blank));
    nonempty = λ i u. absurd (omega (arith, count-blank, u.0));
    inside = λ i u. absurd (omega (arith, count-blank, u.0));
    apart = λ i j u v ne. absurd (omega (arith, count-blank, u.0));
  }

-- `Init` on a page of 4096 bytes, whatever they are, with a ready log, returns a sound page on which
-- every slot is free.
pub init_empties :
    (e : Env) (p : Page) (page_id prev_page_id : ℕ)
    → IsReady e.log
    → IsPage p
    → (e' : Env) × (p' : Page) × (init e p page_id prev_page_id ≡ returns (e', p'))
      × IsSound p'
      × ((i : ℕ) → stored p' i ≡ free)
      × (IsReady e'.log)
unfolding init new_log_record_new_page set_page_id set_prev_page_id set_next_page_id set_tuple_count
    set_free_space_pointer copy_header
init_empties e p page_id prev_page_id c len =
    let r = new_log_record_new_page e.txn.txn_id e.txn.prev_lsn new_page_type prev_page_id in
    let (e', q, logged, l) =
      write_log_record_total e p r c (record { exact = refl; small = omega arith }) len in
    (
      e',
      blank q page_id prev_page_id l.body.page,
      rw logged refl,
      IsSound-blank q page_id prev_page_id l.body.page,
      (λ i. unfold stored in ground (arith, count-blank q page_id prev_page_id l.body.page)),
      l.ready,
    )
