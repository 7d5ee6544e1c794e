-- ===== src/Proxy/Tests.antt =====
-- The proxy session on concrete runs.
use embervm.Prelude.{◌≤◌, ◌+◌, List, [], ◌∷◌, true, false, codes, ◌≡◌, refl}
use embervm.Proxy.{Event, ensured, answered, run, loaded, proxy_url}
use embervm.Proxy.Session.{breaks, posts-run-loaded}

proxy_url-root :
    proxy_url (codes "sb1") (codes "80") (codes "x") ≡ codes "/v0/sandboxes/sb1/proxy/80/x"
unfolding proxy_url
proxy_url-root = refl

abbrev history : List Event
history = ensured ∷ ensured ∷ answered 0 false ∷ ensured ∷ answered 1 true ∷ ensured ∷ []

posts-run-loaded_example : (run loaded history).posts ≤ 1 + breaks history
posts-run-loaded_example = posts-run-loaded history
