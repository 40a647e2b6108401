-- ===== src/Api/Web/Paths.antt =====
-- Which file a path below the prefix is answered with.
use poll_bot.Common.{
  ◌≡◌, refl, ◌∙◌, ap, true, ◌||◌, not, [], ◌∷◌, ◌++◌, Bytes, nat_beq_iff, bytes_comparable, ◌==◌,
  if◌then◌else◌, arith,
}
use mathlib.Core.List.{append_assoc}
use poll_bot.Api.Web.{
  slash, has_prefix, drop_prefix, trim_prefix, Opened, exists, Served, serve_file, serve,
}

has_prefix-append : (prefix s : Bytes) → has_prefix (prefix ++ s) prefix ≡ true
unfolding has_prefix
has_prefix-append [] [] = refl
has_prefix-append [] (c ∷ s) = refl
has_prefix-append (p ∷ prefix) s = ground (arith, nat_beq_iff p p, has_prefix-append prefix s)

drop_prefix-append : (prefix s : Bytes) → drop_prefix (prefix ++ s) prefix ≡ s
unfolding drop_prefix
drop_prefix-append [] [] = refl
drop_prefix-append [] (c ∷ s) = refl
drop_prefix-append (p ∷ prefix) s = drop_prefix-append prefix s

pub trim_prefix-append : (prefix s : Bytes) → trim_prefix (prefix ++ s) prefix ≡ s
unfolding trim_prefix
trim_prefix-append prefix s = rw (has_prefix-append prefix s) (drop_prefix-append prefix s)

relative_path :
    (prefix rel : Bytes) → trim_prefix (trim_prefix (prefix ++ slash ++ rel) prefix) slash ≡ rel
relative_path prefix rel =
    ap (λ path. trim_prefix (trim_prefix path prefix) slash) (append_assoc prefix slash rel)
    ∙ ap (λ path. trim_prefix path slash) (trim_prefix-append prefix (slash ++ rel))
    ∙ trim_prefix-append slash rel

-- A path made of the prefix, a slash and a name is answered with the file of that name where there
-- is one, and with the shell where there is none or the name is empty.
pub serve_below :
    (prefix rel : Bytes) (dist : Bytes → Opened)
    → serve prefix dist (prefix ++ slash ++ rel)
      ≡ (if rel == [] || not (exists (dist rel)) then Served.shell else serve_file rel)
unfolding serve
serve_below prefix rel dist =
    ap (λ name. if name == [] || not (exists (dist name)) then Served.shell else serve_file name)
      (relative_path prefix rel)
