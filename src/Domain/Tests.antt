-- ===== src/Domain/Tests.antt =====
-- internal/domain/types.go: runs of the definitions on concrete webhooks and host names.
use howk.Prelude.{◌≡◌, refl, ◌↔◌, Bool, true, false, [], ◌∷◌, some}
use howk.Prelude.Text.{codes}
use howk.Domain.Headers.{clone_for_dlq, default_sensitive_headers, header, redacted, is_sensitive}
use howk.Domain.Matching.{matches_domain, Matches}
use howk.Domain.Samples.{sample_webhook}

authorization_hidden :
    header (codes "AUTHORIZATION") (clone_for_dlq sample_webhook default_sensitive_headers).headers
    ≡ some redacted
unfolding clone_for_dlq is_sensitive howk.Prelude.Text.lower
authorization_hidden = refl

below_wildcard : matches_domain (codes "Api.Example.com") (codes "*.example.com") ≡ true
unfolding matches_domain howk.Domain.Matching.after_wildcard howk.Prelude.Text.lower
    howk.Prelude.Text.has_suffix
below_wildcard = refl

suffix_is_not_enough : matches_domain (codes "badexample.com") (codes "*.example.com") ≡ false
unfolding matches_domain howk.Domain.Matching.after_wildcard howk.Prelude.Text.lower
    howk.Prelude.Text.has_suffix
suffix_is_not_enough = refl
