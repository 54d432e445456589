-- ===== src/Template/Laws.antt =====
-- What rendering does to a text.
use notifyx.Prelude.{◌≡◌, refl, List}
use notifyx.Template.{render}

test_render :
    render "Hi {{ name }}, {{{a}} {{missing}} {{}} {{ a b }}"
      (List.◌∷◌ ("name", "Bo") (List.◌∷◌ ("a", "1") List.[]))
    ≡ "Hi Bo, {1 {{missing}} {{}} {{ a b }}"
unfolding render
test_render = refl
