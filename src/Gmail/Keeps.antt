-- ===== src/Gmail/Keeps.antt =====
-- The client's methods under a predicate on the world that the requests keep.
use dist_task_queue.Prelude.{ℕ, zero, suc, Option, none, some, List, [], ◌∷◌, ◌++◌, inl, inr}
use dist_task_queue.Prelude.Tests.{Bytes, bytes_eq, Bool-cases}
use dist_task_queue.Prelude.Decimal.{parse_uint}
use dist_task_queue.Services.{Env}
use dist_task_queue.World.{World, Result, ok, err, Error, and_then_keeps}
use dist_task_queue.Store.Types.{Uuid, Time}
use dist_task_queue.Gmail.{
  Gmail, MessagesPage, list_from, latest_message_ids, list_recent_pages, list_recent, after_page,
  on_page, list_all_loop, list_all_pages, page_ids,
}

-- The requests of every user keep P.
pub record Keeps {e : Env} (g : Gmail e) (P : World e → Type 0) : Type 0 where
  pub open_client : (u : Uuid) (w : World e) → P w → P (g.open_client u w).1
  pub history_list :
      (u : Uuid) (start : ℕ) (l : Bytes) (w : World e) → P w → P (g.history_list u start l w).1
  pub messages_list :
      (u : Uuid) (ls : List Bytes) (q t : Bytes) (w : World e)
      → P w
      → P (g.messages_list u ls q t w).1
  pub get_profile : (u : Uuid) (w : World e) → P w → P (g.get_profile u w).1

module _ {e : Env} (g : Gmail e) (P : World e → Type 0) (k : Keeps g P) (user : Uuid) where
  pub latest_message_ids_keeps :
      (last : Bytes) (w : World e) → P w → P (latest_message_ids g user last w).1
  unfolding latest_message_ids
  latest_message_ids_keeps last w h = by_start (parse_uint last)
    where
      by_start : (o : Option ℕ) → P (list_from g user last o w).1
      by_start none = h
      by_start (some start) =
          and_then_keeps P _ (g.history_list user start _ w) (k.history_list user start _ w h)
            λ resp v hv. hv

  list_recent_pages_keeps :
      (pages : ℕ) (query : Bytes) (ids : List Bytes) (token : Bytes) (w : World e)
      → P w
      → P (list_recent_pages g user pages query ids token w).1
  unfolding list_recent_pages
  list_recent_pages_keeps zero query ids token w h = h
  list_recent_pages_keeps (suc pages) query ids token w h =
      and_then_keeps P _ (g.messages_list user _ query token w)
        (k.messages_list user _ query token w h)
        λ resp v hv. elim (Bool-cases (bytes_eq resp.next_page_token [])) [
          | inl last ↦ rw last hv
          | inr more ↦ rw more (
              list_recent_pages_keeps pages query (ids ++ page_ids resp.messages)
                resp.next_page_token v hv)
        ]

  pub list_recent_keeps :
      (pages : ℕ) (since : Time) (w : World e) → P w → P (list_recent g user pages since w).1
  unfolding list_recent
  list_recent_keeps pages since = list_recent_pages_keeps pages _ [] []

  module _ {S : Type 0} (page : S → List Bytes → World e → (Option Error × S) × World e)
      (page_keeps : (s : S) (ids : List Bytes) (w : World e) → P w → P (page s ids w).1) where
    after_page_keeps :
        (next : Bytes) (again : Bytes → S → World e → (Option Error × S) × World e)
        (r : (Option Error × S) × World e)
        → P r.1
        → ((t : Bytes) (s : S) (w : World e) → P w → P (again t s w).1)
        → P (after_page g user page next again r).1
    after_page_keeps next again ((some x, s), w) h keep = h
    after_page_keeps [] again ((none, s), w) h keep = h
    after_page_keeps (b ∷ next) again ((none, s), w) h keep = keep (b ∷ next) s w h

    on_page_keeps :
        (s : S) (again : Bytes → S → World e → (Option Error × S) × World e)
        (r : Result MessagesPage × World e)
        → P r.1
        → ((t : Bytes) (s : S) (w : World e) → P w → P (again t s w).1)
        → P (on_page g user page s again r).1
    on_page_keeps s again (err x, w) h keep = h
    on_page_keeps s again (ok resp, w) h keep =
        after_page_keeps resp.next_page_token again (page s (page_ids resp.messages) w)
          (page_keeps s _ w h) keep

    list_all_loop_keeps :
        (pages : ℕ) (query token : Bytes) (s : S) (w : World e)
        → P w
        → P (list_all_loop g user page pages query token s w).1
    unfolding list_all_loop
    list_all_loop_keeps zero query token s w h = h
    list_all_loop_keeps (suc pages) query token s w h =
        on_page_keeps s _ (g.messages_list user _ query token w)
          (k.messages_list user _ query token w h) (list_all_loop_keeps pages query)

    pub list_all_pages_keeps :
        (pages : ℕ) (since before : Time) (s : S) (w : World e)
        → P w
        → P (list_all_pages g user page pages since before s w).1
    unfolding list_all_pages
    list_all_pages_keeps pages since before = list_all_loop_keeps pages _ []
