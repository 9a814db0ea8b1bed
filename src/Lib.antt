-- ===== src/Lib.antt =====
-- A verification library of djangorestframework-services: a Django REST framework layer in which a
-- project declares specs (what service or selector runs, what it is handed, what it answers) and
-- views and viewsets run them. The library checks each declaration as it is made, compiles it for
-- the kernel (the package django-service-specs), and turns outcomes into responses. Paths below are
-- under rest_framework_services/.
--
-- The parts and their files:
--   Prelude        Boolean tests, lists of names, dictionaries as association lists, results and
--                  the equivalences that their proofs compose.
--   Values         JSON-native Python values, with dictionaries that may have keys of other types.
--   Annotations    Type annotations as trees, and the schema markers in them:
--                  types/read_schema_markers.py, types/read_input_description.py,
--                  types/unpack_typed_dict.py, types/typed_dict_input.py and
--                  types/marked_input_keys.py. Layer, Descriptions and Occurs are about the readers
--                  of one annotation, Keys about what is recorded of a signature.
--   Callables      Signatures as `inspect` shows them, and `resolve_callable_kwargs` of
--                  views/utils.py; Binding is about what a callable receives.
--   Config         The refusals: one constructor for each place that raises ImproperlyConfigured,
--                  with the label that places it. The wording of messages is left out.
--   Specs          ServiceSpec, SelectorSpec and PolymorphicServiceSpec of types/. A field whose
--                  type Python does not enforce has a data type with the cases that the code tells
--                  apart.
--   Construction   The `__post_init__` checks of the specs (types/service_spec.py,
--                  types/selector_spec.py, types/utils.py). Sound is about service specs, Aliases
--                  about the annotations that a selector spec generates.
--   Validation     views/spec_validation.py: Signature (a callable against what it is handed), Parts
--                  (single fields), Nested (selector specs inside a service spec, markers, filters)
--                  and Whole (specs and view classes). Their Accepts modules state the conditions
--                  independently of the order of the checks.
--   Audience       audience/utils.py (Answers: affordances per row) and
--                  audience/build_audience_projection.py (Projection).
--   Mutation       views/mutation: Errors (exceptions and the schema that is put back), Hooks (status
--                  callables and finalizers), Response (status, body, target).
--   Viewsets       viewsets/utils.py and viewsets/resolve_polymorphic_service_spec.py: Actions (which
--                  spec serves an action, with the view's cache of chosen variants passed along),
--                  Declared (the check of `as_view`) and Permissions (`get_permissions`).
--   Channels       types/validate_channel_names.py, and the routing of arguments in
--                  service_specs/drf_permission_check.py.
--   Layers         `resolve_extra_kwargs` of views/utils.py: the providers of extra arguments.
--   Dispatch       Enforced is about dispatch/enforce_permissions.py. The others are parts of
--                  dispatch/utils.py: Declared (the declared input, and the names that the server
--                  owns), Unknown (the policy for undeclared arguments), Edge (the declared channels,
--                  routed to the arguments and back onto an offline view, less the names that
--                  Edge.Withheld takes out) and Authors (the values of hooks and of the spec's
--                  provider).
--   JsonSchema     jsonschema/utils.py: Choices, Fields, Overrides (drf-spectacular's annotations),
--                  Serializers (the walk over nested serializers; Bounded is about its end and
--                  Published about what it lists), Lists (the bounds of bulk inputs), Inputs (the
--                  input schema of a callable) and Types (the schema of a type).
--   Tests          Concrete specs, and the theorems at them.
--
-- How they interact: a spec is built (Construction), then checked where a view or a router declares
-- it (Validation, on the signatures of Callables and the markers of Annotations). At a request the
-- viewset resolves the action's spec and its permissions (Viewsets), the caller's input and the
-- author's values become the arguments of the call (Dispatch), and the kernel runs the service; its
-- outcome becomes a response (Mutation), into which the affordances of each row are
-- answered (Audience.Answers) under the aliases that Construction made distinct.
--
-- Parameters of the model: project code (services, hooks, serializers) is reached by its signature,
-- and by functions where its answer is used (ProjectCode). The parameter names of a filter set and
-- the fields of an input serializer come from third-party classes (Descriptions); `get_type_hints`
-- is the `hint` of each parameter, and the resolution of the annotation of a `**kwargs` at runtime is
-- a function (RuntimeAnnotation). `coerce_flat`, the reads of a compiled spec and Django's
-- `QueryDict.get` are fields of Kernel, with the behaviour of `coerce_flat` as a hypothesis
-- (Coerces); the names that a call takes from compiled specs and seeds are the fields of CallNames.
-- The serializer instances that an application nests may be without end (Serializers).
--
-- Fuel: `serializer_to_schema` and `type_to_schema` have it. A class may stand on the path of the
-- walk four times, so four times the number of the classes and one more is enough; under a
-- `max_depth`, one more than that depth is. A type is described on any fuel above its size. All other recursion is structural.
--
-- Not modelled: the kernel and DRF themselves, the compilation of specs into kernel specs (the rest
-- of service_specs/), the drivers of dispatch (the rest of dispatch/), the schemas of dataclasses and
-- of whole specs (the rest of jsonschema/) and openapi/, the ORM writes (mutations/, selectors/), the
-- answers of viewsets to OPTIONS, the arguments of a call with `many`, the evaluation of forward
-- references in types/utils.py, and the asynchronous twins of synchronous functions.
pub mod Prelude
pub mod Values
pub mod Annotations
pub mod Callables
pub mod Config
pub mod Specs
pub mod Construction
pub mod Validation
pub mod Audience
pub mod Mutation
pub mod Channels
pub mod Dispatch
pub mod Layers
pub mod Viewsets
pub mod JsonSchema
pub mod Tests
