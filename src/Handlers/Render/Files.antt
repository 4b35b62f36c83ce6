-- ===== src/Handlers/Render/Files.antt =====
-- The files that Process of internal/handler/render.go leaves.
use dist_task_queue.Prelude.{
  ℕ, ◌/◌, inl, inr, ◌≡◌, refl, sym, ap, ◌∙◌, Option, none, some, List, [], ◌∷◌, ◌++◌, map,
  append_assoc, append-nil, arith,
}
use dist_task_queue.Prelude.Tests.{Bytes, Bool-cases, ◌==◌}
use dist_task_queue.Prelude.Lists.{All}
use dist_task_queue.Services.{Env, IsName}
use dist_task_queue.World.{World, M, ok, and_then_keeps, and_then_ok, ◌>>=◌, ◌>>◌, pure}
use dist_task_queue.Store.Types.{Uuid, Job}
use dist_task_queue.Handlers.Paths.{sanitize_filename}
use dist_task_queue.Handlers.Filename.{sanitize_filename-IsName}
use dist_task_queue.Handlers.Mime.{Attachment, ParsedMessage}
use dist_task_queue.Handlers.Words.{upload_stage, meta_dir, pdf_dir, convert_path}
use dist_task_queue.Handlers.Disk.{
  or_text_error, write_file, make_dirs, mime_path, pdf_path, meta_path, attachments_path,
  attachment_path,
}
use dist_task_queue.Handlers.Disk.Effects.{
  look, put, look-write_file, look-make_dirs, look_saved, word-IsName, suffixed-IsName,
}
use dist_task_queue.Handlers.Render.{
  RenderConfig, render_html, read_pdf, build_html_wrapper, write_attachments, save_attachments,
  RenderMeta, save_pdf, save_meta, meta_of, render_parsed,
}

-- Paths of a job's files are made of names.
module _ (e : Env) (id : Uuid) (named : IsName (e.format_uuid id)) where
  pub pdf_path-IsName : All IsName (pdf_path e id)
  pdf_path-IsName =
      (word-IsName _ refl (omega arith), (suffixed-IsName _ _ named refl (omega arith), tt))

  pub meta_path-IsName : All IsName (meta_path e id)
  meta_path-IsName =
      (word-IsName _ refl (omega arith), (suffixed-IsName _ _ named refl (omega arith), tt))

  pub mime_path-IsName : All IsName (mime_path e id)
  mime_path-IsName =
      (word-IsName _ refl (omega arith), (suffixed-IsName _ _ named refl (omega arith), tt))

  pub attachment_path-IsName : (name : Bytes) → IsName name → All IsName (attachment_path e id name)
  attachment_path-IsName name h = (word-IsName _ refl (omega arith), (named, (h, tt)))

module _ {e : Env} (c : RenderConfig e) where
  abbrev pub name_of : Attachment → Bytes
  name_of a = sanitize_filename c.unicode a.filename

  -- Every attachment in its file, in their order.
  unfoldable pub put_all : Uuid → List Attachment → Option Bytes → List Bytes → Option Bytes
  put_all id [] old q = old
  put_all id (a ∷ more) old q =
      put_all id more (put (attachment_path e id (name_of a)) a.content old q) q

-- A service that makes PDFs writes no file here.
module _ {e : Env} (c : RenderConfig e) (job : Job) (named : IsName (e.format_uuid job.id))
    (post_disk : (url html : Bytes) (v : World e) → (c.post url html v).1.disk ≡ v.disk) where
  look-write_attachments :
      (files : List Attachment) (names out : List Bytes) (w : World e)
      → (write_attachments c job.id files names w).0 ≡ ok out
      → (out ≡ names ++ map (name_of c) files)
        × ((q : List Bytes)
            → All IsName q
            → look c.data_dir (write_attachments c job.id files names w).1 q
              ≡ put_all c job.id files (look c.data_dir w q) q)
  unfolding write_attachments put_all
  look-write_attachments [] names out w h =
      let same : names ≡ out = cc in (sym same ∙ sym (append-nil names), λ q hq. refl)
  look-write_attachments (a ∷ more) names out w h =
      let first = write_file c.data_dir (attachment_path e job.id (name_of c a)) a.content w in
      let (u, hw, behind) =
        and_then_ok (λ u. write_attachments c job.id more (names ++ name_of c a ∷ [])) first out
          h in
      let (all, looks) =
        look-write_attachments more (names ++ name_of c a ∷ []) out first.1 (rw behind at h) in
      (
        all ∙ append_assoc names (name_of c a ∷ []) (map (name_of c) more),
        λ q hq. rw behind (
            looks q hq
            ∙ ap (λ old. put_all c job.id more old q)
                (look-write_file c.data_dir (attachment_path e job.id (name_of c a)) q a.content w
                  (attachment_path-IsName e job.id named (name_of c a)
                    (sanitize_filename-IsName c.unicode a.filename))
                  hq hw)),
      )

  look-save_attachments :
      (files : List Attachment) (out : List Bytes) (w : World e)
      → (save_attachments c job.id files w).0 ≡ ok out
      → (out ≡ map (name_of c) files)
        × ((q : List Bytes)
            → All IsName q
            → look c.data_dir (save_attachments c job.id files w).1 q
              ≡ put_all c job.id files (look c.data_dir w q) q)
  unfolding save_attachments
  look-save_attachments [] out w h = look-write_attachments [] [] out w h
  look-save_attachments (a ∷ more) out w h =
      let made = make_dirs c.data_dir (attachments_path e job.id) w in
      let (u, hm, behind) =
        and_then_ok (λ u. write_attachments c job.id (a ∷ more) []) made out h in
      let (all, looks) = look-write_attachments (a ∷ more) [] out made.1 (rw behind at h) in
      (
        all,
        λ q hq. rw behind (
            looks q hq
            ∙ ap (λ old. put_all c job.id (a ∷ more) old q)
                (look-make_dirs c.data_dir (attachments_path e job.id) q w)),
      )

  or_text_error_ok :
      (o : Option Bytes) (b : Bytes) (w : World e)
      → (or_text_error o w).0 ≡ ok b
      → (o ≡ some b) × ((or_text_error o w).1 ≡ w)
  or_text_error_ok none b w h = cc
  or_text_error_ok (some s) b w h = (cc, refl)

  or_text_error_disk : (o : Option Bytes) (w : World e) → (or_text_error o w).1 ≡ w
  or_text_error_disk none w = refl
  or_text_error_disk (some b) w = refl

  read_pdf_disk : (r : ℕ × Option Bytes) (w : World e) → (read_pdf c r w).1.disk ≡ w.disk
  read_pdf_disk (status, b) w = elim (Bool-cases (status / 100 == 2)) [
    | inl fine ↦ rw fine (ap (λ v. v.disk) (or_text_error_disk b w))
    | inr wrong ↦ rw wrong refl
  ]

  render_html_disk : (html : Bytes) (w : World e) → (render_html c html w).1.disk ≡ w.disk
  unfolding render_html
  render_html_disk html w =
      and_then_keeps (λ v. v.disk ≡ w.disk) (read_pdf c)
        (c.post (c.pdf_endpoint ++ convert_path) html w)
        (post_disk (c.pdf_endpoint ++ convert_path) html w) (λ r v same. read_pdf_disk r v ∙ same)

  look-save_pdf :
      (html : Bytes) (w : World e)
      → ((render_html c html >>= save_pdf c job.id) w).0 ≡ ok tt
      → (pdf : Bytes) × ((render_html c html w).0 ≡ ok pdf)
        × ((q : List Bytes)
            → All IsName q
            → look c.data_dir ((render_html c html >>= save_pdf c job.id) w).1 q
              ≡ put (pdf_path e job.id) pdf (look c.data_dir w q) q)
  unfolding save_pdf
  look-save_pdf html w h =
      let (pdf, made, behind) = and_then_ok (save_pdf c job.id) (render_html c html w) tt h in
      (
        pdf,
        made,
        λ q hq. rw behind (
            look_saved c.data_dir (pdf_dir ∷ []) (pdf_path e job.id) q pdf _
              (pdf_path-IsName e job.id named) hq (rw behind at h)
            ∙ ap (λ d. put (pdf_path e job.id) pdf (e.disk.read c.data_dir q d) q)
                (render_html_disk html w)),
      )

  look-save_meta :
      (meta : RenderMeta) (w : World e)
      → (save_meta c job.id meta w).0 ≡ ok tt
      → (b : Bytes) × (c.json.marshal meta ≡ some b)
        × ((q : List Bytes)
            → All IsName q
            → look c.data_dir (save_meta c job.id meta w).1 q
              ≡ put (meta_path e job.id) b (look c.data_dir w q) q)
  unfolding save_meta
  look-save_meta meta w h =
      let (b, made, behind) =
        and_then_ok
          (λ b.
            make_dirs c.data_dir (meta_dir ∷ []) >> write_file c.data_dir (meta_path e job.id) b)
          (or_text_error (c.json.marshal meta) w) tt h in
      let (printed, same) = or_text_error_ok (c.json.marshal meta) b w made in
      (
        b,
        printed,
        λ q hq. rw behind (
            look_saved c.data_dir (meta_dir ∷ []) (meta_path e job.id) q b _
              (meta_path-IsName e job.id named) hq (rw behind at h)
            ∙ ap (λ v. put (meta_path e job.id) b (look c.data_dir v q) q) same),
      )

  -- The files behind a message that is rendered: its attachments, its PDF, its meta.
  pub look-render_parsed :
      (p : ParsedMessage) (w : World e)
      → (render_parsed c job p w).0 ≡ ok upload_stage
      → (pdf : Bytes) × (v : World e) × ((render_html c (build_html_wrapper c p) v).0 ≡ ok pdf)
        × (b : Bytes) × (c.json.marshal (meta_of c job p (map (name_of c) p.attachments)) ≡ some b)
        × ((q : List Bytes)
            → All IsName q
            → look c.data_dir (render_parsed c job p w).1 q
              ≡ put
                  (meta_path e job.id)
                  b
                  (put
                    (pdf_path e job.id)
                    pdf
                    (put_all c job.id p.attachments (look c.data_dir w q) q)
                    q)
                  q)
  unfolding render_parsed
  look-render_parsed p w h =
      let saved = save_attachments c job.id p.attachments w in
      let meta : List Bytes → M e (Unit {0}) =
        λ names. save_meta c job.id (meta_of c job p names) in
      let printed = render_html c (build_html_wrapper c p) >>= save_pdf c job.id in
      let rest : List Bytes → M e Bytes = λ names. printed >> meta names >> pure upload_stage in
      let (names, hs, behind) = and_then_ok rest saved upload_stage h in
      let (named_all, looks) = look-save_attachments p.attachments names w hs in
      let v = saved.1 in
      let (u, hm, behind2) =
        and_then_ok (λ u. pure upload_stage) ((printed >> meta names) v) upload_stage
          (rw behind at h) in
      let (u2, hp, behind3) = and_then_ok (λ u. meta names) (printed v) tt hm in
      let (pdf, made, looks2) = look-save_pdf (build_html_wrapper c p) v hp in
      let (b, marshalled, looks3) =
        look-save_meta (meta_of c job p names) (printed v).1 (rw behind3 at hm) in
      (
        pdf,
        v,
        made,
        b,
        rw (sym named_all) marshalled,
        λ q hq.
            ap (λ r. look c.data_dir r.1 q) behind
            ∙ ap (λ r. look c.data_dir r.1 q) behind2
            ∙ ap (λ r. look c.data_dir r.1 q) behind3
            ∙ looks3 q hq
            ∙ ap (λ old. put (meta_path e job.id) b old q) (looks2 q hq)
            ∙ ap (λ old. put (meta_path e job.id) b (put (pdf_path e job.id) pdf old q) q)
                (looks q hq),
      )
