-- ===== src/Postgres/References/Templated.antt =====
-- That a notification's template_id refers to a template, notification_templates of
-- backend/migrations/001_initial_schema.up.sql with ON DELETE SET NULL.
use notifyx.Prelude.{
  ◌≡◌, ◌∙◌, sym, Bool, true, not, some, List, [], ◌∷◌, ◌++◌, arith, ◌==◌, any, any-append, select,
  update_where, All, All-map, All-update_where, Bool-cases, inl, inr,
}
use notifyx.Domain.{Uuid, Notification, NotificationTemplate}
use notifyx.Postgres.Templates.{detached, has_template}
use notifyx.Postgres.References.{any-update_where, any-select-not}

-- The notification's template, if it has one, is there.
abbrev pub Templated : List NotificationTemplate → Notification → Type 0
Templated ts n = (i : Uuid) → n.template_id ≡ some i → any (λ x. x.id == i) ts ≡ true

pub Templated-append :
    (ts : List NotificationTemplate) (x : NotificationTemplate) (ns : List Notification)
    → All (Templated ts) ns
    → All (Templated (ts ++ x ∷ [])) ns
Templated-append ts x ns h =
    All-map (Templated ts) (Templated (ts ++ x ∷ []))
      (λ n g i e. ground (arith, any-append (λ y. y.id == i) ts (x ∷ []), g i e)) ns h

pub Templated-update_where :
    (p : NotificationTemplate → Bool) (f : NotificationTemplate → NotificationTemplate)
    → ((x : NotificationTemplate) → (f x).id ≡ x.id)
    → (ts : List NotificationTemplate) (ns : List Notification) → All (Templated ts) ns
    → All (Templated (update_where p f ts)) ns
Templated-update_where p f k ts ns h =
    All-map (Templated ts) (Templated (update_where p f ts))
      (λ n g i e. any-update_where (λ (n : Notification). n.id) (λ x. x.id) i p f k ts ∙ g i e) ns h

pub Templated-row_update :
    (p : Notification → Bool) (f : Notification → Notification)
    → ((n : Notification) → (f n).template_id ≡ n.template_id)
    → (ts : List NotificationTemplate) (ns : List Notification) → All (Templated ts) ns
    → All (Templated ts) (update_where p f ns)
Templated-row_update p f k ts ns h =
    All-update_where (Templated ts) p f (λ n g i e. g i (sym (k n) ∙ e)) ns h

-- ON DELETE SET NULL: the notifications of the templates that go have no template any more.
pub Templated-detached :
    (q : NotificationTemplate → Bool) (ts : List NotificationTemplate) (ns : List Notification)
    → All (Templated ts) ns
    → All (Templated (select (λ x. not (q x)) ts)) (detached (select q ts) ns)
unfolding detached update_where
Templated-detached q ts [] h = tt
Templated-detached q ts (n ∷ ns) h = elim (Bool-cases (has_template (select q ts) n)) [
  | inl b ↦ rw b (λ i e. ground arith, Templated-detached q ts ns (h.1))
  | inr b ↦ rw b (
    λ i e.
        any-select-not (λ (n : Notification). n.id) (λ x. x.id) i q ts (h.0 i e)
          (unfold has_template in ground arith),
    Templated-detached q ts ns (h.1),
  )
]
